-- ===== src/Bounded/Union.antt =====
-- The answer of `MergeBounded` is the sorted union of what survives and what is added, or an error;
-- under the largest limit, whose successor wraps round, it is the first entity of that union.
use cyoda_go_spi.Base.{
  ◌≡◌, refl, sym, ap, ◌∙◌, subst, inl, inr, ℕ, zero, suc, ◌+◌, ◌≤◌, ◌<◌, ◌%◌, ◌^◌, Bool, true,
  false, List, [], ◌∷◌, Option, none, some, Bytes, length, take, arith, ltb, ltb→lt, Bool-cases,
  Result, ok, err, ◌>>=◌,
}
use cyoda_go_spi.Base.Int.{ℤ, pos, negsuc, ◌≤ℤ◌, ◌<ℤ◌}
use cyoda_go_spi.Entities.{Entity}
use cyoda_go_spi.Merge.{Source}
use cyoda_go_spi.Bounded.{
  BoundedError, failed, limit_exceeded, bad_limit, advance_to, merge_loop, within_limit,
  merge_up_to, merge_bounded, max_int, need_of, appends,
}
use cyoda_go_spi.Bounded.Sorted.{merged, Sorted, count, count-merged, length-merged, merged-Sorted}
use cyoda_go_spi.Bounded.Outcome.{survivors, Advanced, advance_to-Advanced, Runs, merge_loop-Runs}

length-take-le : (n : ℕ) (xs : List Entity) → length (take n xs) ≤ length xs
length-take-le zero xs = omega arith
length-take-le (suc n) [] = omega arith
length-take-le (suc n) (x ∷ xs) = omega (arith, length-take-le n xs)

take_short : (n : ℕ) (xs : List Entity) → length (take n xs) < n → take n xs ≡ xs
take_short zero xs h = absurd (omega (arith, h))
take_short (suc n) [] h = refl
take_short (suc n) (x ∷ xs) h = ap (λ l. x ∷ l) (take_short n xs (omega (arith, h)))

need-below : (n : ℕ) → suc n < max_int → appends (need_of (suc n)) ≡ suc (suc n)
unfolding need_of appends
need-below n h = rw (bits, small) refl
  where
    bits : (suc n + 1) % 2 ^ 64 ≡ suc (suc n)
    bits = ground (arith, h)

    small : ltb (suc (suc n)) (2 ^ 63) ≡ true
    small = ground (arith, h)

need-largest : appends (need_of max_int) ≡ 1
unfolding need_of appends
need-largest = refl

module _ {Error : Type 0} (is_deleted : Option (Bytes → Bool)) (less : Entity → Entity → Bool)
    (source : Source Error) (adds : List Entity) where
  abbrev pub total : ℕ
  total = length (survivors is_deleted source.rows) + length adds

  -- What is returned under a limit: the refusal of a limit below 1, the error with which the stream
  -- ends, and under a limit below the largest `int` the error of more entities than the limit, or the
  -- sorted list of all of them, no more than the limit, in which each test passes as often as in the
  -- survivors and the additions together. Under the largest `int`: the first entity of their merge,
  -- if there is one.
  pub data Outcome : ℤ → Result (BoundedError Error) (List Entity) → Type 0 where
    refused : {limit : ℤ} → limit ≤ℤ pos 0 → Outcome limit (err bad_limit)
    broken : {limit : ℤ} (e : Error) → source.ending ≡ some e → Outcome limit (err (failed e))
    too_many :
        {limit : ℤ} → limit <ℤ pos max_int → limit <ℤ pos total → Outcome limit (err limit_exceeded)
    union :
        {limit : ℤ} (out : List Entity)
        → limit <ℤ pos max_int
        → source.ending ≡ none
        → pos total ≤ℤ limit
        → Sorted less out
        → ((p : Entity → Bool)
            → count p out ≡ count p (survivors is_deleted source.rows) + count p adds)
        → Outcome limit (ok out)
    cut_short :
        {limit : ℤ}
        → limit ≡ pos max_int
        → Outcome limit (ok (take 1 (merged less (survivors is_deleted source.rows) adds)))

  module _ (asymmetric : (x y : Entity) → less x y ≡ true → less y x ≡ false)
      (transitive : (x y z : Entity) → less x y ≡ false → less y z ≡ false → less x z ≡ false)
      (rows_sorted : Sorted less (survivors is_deleted source.rows))
      (adds_sorted : Sorted less adds) where
    abbrev whole : List Entity
    whole = merged less (survivors is_deleted source.rows) adds

    limited :
        (n : ℕ) (out : List Entity)
        → n < max_int
        → out ≡ take (suc n) whole
        → (length out < suc n → source.ending ≡ none)
        → Outcome (pos n) (within_limit is_deleted less n out)
    unfolding within_limit
    limited n out m e f = elim (Bool-cases (ltb n (length out))) [
      | inl h ↦
          rw (h, within_limit)
            (too_many (omega (arith, m)) (
              above (length out) (ltb→lt n (length out) h) (
                subst (λ o. length o ≤ total) (sym e)
                  (omega (
                    arith,
                    length-take-le (suc n) whole,
                    length-merged less (survivors is_deleted source.rows) adds,
                  )))))
      | inr h ↦
          let short : length out < suc n = below (length out) h in
          let all : out ≡ whole =
            e ∙ take_short (suc n) whole (subst (λ o. length o < suc n) e short) in
          rw (h, within_limit)
            (union out (omega (arith, m)) (f short)
              (fits (length out) short
                (ap length all ∙ length-merged less (survivors is_deleted source.rows) adds))
              (subst (Sorted less) (sym all) (
                merged-Sorted less asymmetric transitive (survivors is_deleted source.rows) adds
                  rows_sorted adds_sorted))
              (λ p. ap (count p) all ∙ count-merged less p (survivors is_deleted source.rows) adds))
    ]
      where
        below : (k : ℕ) → ltb n k ≡ false → k < suc n
        below k h = ground arith

        above : (k : ℕ) → n < k → k ≤ total → pos n <ℤ pos total
        above k h l = omega (arith, h, l)

        fits : (k : ℕ) → k < suc n → k ≡ total → pos total ≤ℤ pos n
        fits k h q = omega (arith, h, q)

    largest :
        (n : ℕ) (out : List Entity)
        → n ≡ max_int
        → out ≡ take 1 whole
        → Outcome (pos n) (within_limit is_deleted less n out)
    unfolding within_limit
    largest n out q e =
        rw (fits (length out) (subst (λ o. length o ≤ 1) (sym e) (one whole)), e)
          (cut_short (ap pos q))
      where
        one : (xs : List Entity) → length (take 1 xs) ≤ 1
        one [] = omega arith
        one (x ∷ xs) = omega arith

        fits : (k : ℕ) → k ≤ 1 → ltb n k ≡ false
        fits k h = ground (arith, q, h)

    -- What the loop leaves for the test of the limit.
    abbrev Finishes : ℕ → ℕ → Type 0
    Finishes n k =
        (out : List Entity)
        → out ≡ take k whole
        → (length out < k → source.ending ≡ none)
        → Outcome (pos n) (within_limit is_deleted less n out)

    finishes : (n : ℕ) → suc n ≤ max_int → Finishes (suc n) (appends (need_of (suc n)))
    finishes n l out e f = elim (Bool-cases (ltb (suc n) max_int)) [
      | inl h ↦
          let m = ltb→lt (suc n) max_int h in
          let q = need-below n m in
          limited (suc n) out m (e ∙ ap (λ k. take k whole) q)
            (λ h. f (subst (λ k. length out < k) (sym q) h))
      | inr h ↦
          let q : suc n ≡ max_int = ground (arith, h, l) in
          largest (suc n) out q
            (e ∙ ap (λ n. take (appends (need_of n)) whole) q ∙ ap (λ k. take k whole) need-largest)
    ]

    ran :
        (n k : ℕ) (cs : List Entity) (r : Result (BoundedError Error) (List Entity))
        → Finishes n k
        → cs ≡ survivors is_deleted source.rows
        → Runs is_deleted less k source.ending cs adds r
        → Outcome (pos n) (r >>= λ out. within_limit is_deleted less n out)
    ran n k cs (err w) fin q (e, f, g) = subst (λ w. Outcome (pos n) (err w)) (sym f) (broken e g)
    ran n k cs (ok out) fin q (e, f) = fin out (e ∙ ap (λ s. take k (merged less s adds)) q) f

    started :
        (n k : ℕ) (r : Result (BoundedError Error) (Option Entity × List Entity))
        → Finishes n k
        → Advanced is_deleted less source.ending source.rows r
        → Outcome (pos n) (
            r >>= λ (cur, rows). merge_loop is_deleted less k source.ending cur rows adds >>= λ out.
            within_limit is_deleted less n out)
    started n k (err w) fin (e, f, g) = subst (λ w. Outcome (pos n) (err w)) (sym f) (broken e g)
    started n k (ok (none, rest)) fin (e, f, g) =
        let gone : survivors is_deleted rest ≡ [] = ap (survivors is_deleted) f in
        ran n k (survivors is_deleted rest)
          (merge_loop is_deleted less k source.ending none rest adds) fin (gone ∙ sym g)
          (merge_loop-Runs is_deleted less k source.ending none rest adds (e, gone))
    started n k (ok (some c, rest)) fin v =
        ran n k (c ∷ survivors is_deleted rest)
          (merge_loop is_deleted less k source.ending (some c) rest adds) fin (sym v)
          (merge_loop-Runs is_deleted less k source.ending (some c) rest adds tt)

    -- Let `less` be a strict order in which not being less is transitive, and let the survivors of the
    -- stream and the additions be sorted by it. Under a limit below the largest `int`, the answer is
    -- the refusal of a limit below 1, the error with which the stream ends, the error of more
    -- entities than the limit, or, from a stream that ends well with no more of them than the limit,
    -- the sorted list of all survivors and additions. Under the largest `int` it is the error with
    -- which the stream ends, or the first entity of their sorted merge alone, without an error.
    pub merge_bounded-Outcome :
        (limit : ℤ)
        → limit ≤ℤ pos max_int
        → Outcome limit (merge_bounded is_deleted less source adds limit)
    unfolding merge_bounded merge_up_to
    merge_bounded-Outcome (pos zero) l = refused (omega arith)
    merge_bounded-Outcome (negsuc n) l = refused (omega arith)
    merge_bounded-Outcome (pos (suc n)) l =
        started (suc n) (appends (need_of (suc n)))
          (advance_to is_deleted less source.ending source.rows) (finishes n (omega (arith, l)))
          (advance_to-Advanced is_deleted less source.ending source.rows)
