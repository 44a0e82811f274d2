-- ===== src/Bounded/Outcome.antt =====
-- What `MergeBounded` returns.
use cyoda_go_spi.Base.{
  ◌≡◌, refl, sym, ap, ◌∙◌, inl, inr, ℕ, zero, suc, ◌<◌, Bool, true, false, not, List, [], ◌∷◌,
  Option, none, some, Bytes, length, take, keep, arith, Bool-cases, Result, ok, err, ◌>>=◌,
}
use cyoda_go_spi.Entities.{Entity}
use cyoda_go_spi.Merge.{skips}
use cyoda_go_spi.Bounded.{BoundedError, failed, advance_to, merge_loop}
use cyoda_go_spi.Bounded.Sorted.{merged}

-- The rows that are not deleted.
abbrev pub survivors : Option (Bytes → Bool) → List Entity → List Entity
survivors is_deleted rows = keep (λ e. not (skips is_deleted e)) rows

-- What the merge has not taken of the stream.
abbrev pub ahead : Option (Bytes → Bool) → Option Entity → List Entity → List Entity
ahead is_deleted none rows = survivors is_deleted rows
ahead is_deleted (some c) rows = c ∷ survivors is_deleted rows

keep-false :
    (p : Entity → Bool) (e : Entity) (rows : List Entity)
    → p e ≡ false
    → keep p (e ∷ rows) ≡ keep p rows
keep-false p e rows h = rw (h, keep)

keep-true :
    (p : Entity → Bool) (e : Entity) (rows : List Entity)
    → p e ≡ true
    → keep p (e ∷ rows) ≡ e ∷ keep p rows
keep-true p e rows h = rw (h, keep)

alone :
    (less : Entity → Entity → Bool) (c : Entity) (cs : List Entity)
    → merged less (c ∷ cs) [] ≡ c ∷ merged less cs []
unfolding merged
alone less c [] = refl
alone less c (d ∷ cs) = refl

module _ {Error : Type 0} (is_deleted : Option (Bytes → Bool)) (less : Entity → Entity → Bool) where
  -- The current row is missing only behind a stream that has ended well.
  abbrev pub Advanced :
      Option Error
      → List Entity
      → Result (BoundedError Error) (Option Entity × List Entity)
      → Type 0
  Advanced ending rows (err w) = (e : Error) × (w ≡ failed e) × (ending ≡ some e)
  Advanced ending rows (ok (none, rest)) =
      (ending ≡ none) × (rest ≡ []) × (survivors is_deleted rows ≡ [])
  Advanced ending rows (ok (some c, rest)) =
      survivors is_deleted rows ≡ c ∷ survivors is_deleted rest

  skip-Advanced :
      (ending : Option Error) (rows rows' : List Entity)
      (r : Result (BoundedError Error) (Option Entity × List Entity))
      → survivors is_deleted rows' ≡ survivors is_deleted rows
      → Advanced ending rows r
      → Advanced ending rows' r
  skip-Advanced ending rows rows' (err w) q v = v
  skip-Advanced ending rows rows' (ok (none, rest)) q (a, b, c) = (a, b, q ∙ c)
  skip-Advanced ending rows rows' (ok (some c, rest)) q v = q ∙ v

  -- One row in front of the others.
  row :
      (ending : Option Error) (e : Entity) (rows : List Entity)
      → Advanced ending rows (advance_to is_deleted less ending rows)
      → Advanced ending (e ∷ rows) (advance_to is_deleted less ending (e ∷ rows))
  unfolding advance_to
  row ending e rows v = elim (Bool-cases (skips is_deleted e)) [
    | inl h ↦
        rw (h, advance_to)
          (skip-Advanced ending rows (e ∷ rows) (advance_to is_deleted less ending rows)
            (keep-false (λ e. not (skips is_deleted e)) e rows (ap not h)) v)
    | inr h ↦ rw (h, advance_to) (keep-true (λ e. not (skips is_deleted e)) e rows (ap not h))
  ]

  pub advance_to-Advanced :
      (ending : Option Error) (rows : List Entity)
      → Advanced ending rows (advance_to is_deleted less ending rows)
  unfolding advance_to
  advance_to-Advanced none [] = (refl, refl, refl)
  advance_to-Advanced (some e) [] = (e, refl, refl)
  advance_to-Advanced none (e ∷ rows) = row none e rows (advance_to-Advanced none rows)
  advance_to-Advanced (some w) (e ∷ rows) = row (some w) e rows (advance_to-Advanced (some w) rows)

  -- A run of the loop, with the entities ahead and `n` more to take: it fails as the stream does, or
  -- returns the front of the merge, and the whole merge of a stream that has ended well if that is
  -- shorter.
  abbrev pub Runs :
      ℕ
      → Option Error
      → List Entity
      → List Entity
      → Result (BoundedError Error) (List Entity)
      → Type 0
  Runs n ending cs adds (err w) = (e : Error) × (w ≡ failed e) × (ending ≡ some e)
  Runs n ending cs adds (ok out) =
      (out ≡ take n (merged less cs adds)) × (length out < n → ending ≡ none)

  -- A missing current row stands for a stream that has ended well.
  abbrev pub Live : Option Error → Option Entity → List Entity → Type 0
  Live ending none rows = (ending ≡ none) × (survivors is_deleted rows ≡ [])
  Live ending (some c) rows = Unit

  next-Runs :
      (n : ℕ) (ending : Option Error) (x : Entity) (cs adds cs' adds' : List Entity)
      (r : Result (BoundedError Error) (List Entity))
      → merged less cs' adds' ≡ x ∷ merged less cs adds
      → Runs n ending cs adds r
      → Runs (suc n) ending cs' adds' (r >>= λ out. ok (x ∷ out))
  next-Runs n ending x cs adds cs' adds' (err w) q v = v
  next-Runs n ending x cs adds cs' adds' (ok out) q (e, f) =
      (ap (λ o. x ∷ o) e ∙ sym (ap (take (suc n)) q), λ h. f (omega (arith, h)))

  -- The row that was taken is followed by the stream's next one.
  taken-Runs :
      (n : ℕ) (ending : Option Error) (c : Entity) (rows adds cs' adds' : List Entity)
      (r : Result (BoundedError Error) (Option Entity × List Entity))
      (next : Option Entity → List Entity → Result (BoundedError Error) (List Entity))
      → Advanced ending rows r
      → merged less cs' adds' ≡ c ∷ merged less (survivors is_deleted rows) adds
      → ((cur : Option Entity) (rest : List Entity)
          → Live ending cur rest
          → Runs n ending (ahead is_deleted cur rest) adds (next cur rest))
      → Runs (suc n) ending cs' adds' (r >>= λ (cur, rest). next cur rest >>= λ out. ok (c ∷ out))
  taken-Runs n ending c rows adds cs' adds' (err w) next v q k = v
  taken-Runs n ending c rows adds cs' adds' (ok (none, rest)) next (e, f, g) q k =
      let gone : survivors is_deleted rest ≡ [] = ap (survivors is_deleted) f in
      next-Runs n ending c (survivors is_deleted rest) adds cs' adds' (next none rest)
        (q ∙ ap (λ s. c ∷ merged less s adds) (g ∙ sym gone)) (k none rest (e, gone))
  taken-Runs n ending c rows adds cs' adds' (ok (some d, rest)) next v q k =
      next-Runs n ending c (d ∷ survivors is_deleted rest) adds cs' adds' (next (some d) rest)
        (q ∙ ap (λ s. c ∷ merged less s adds) v) (k (some d) rest tt)

  pub merge_loop-Runs :
      (n : ℕ) (ending : Option Error) (cur : Option Entity) (rows adds : List Entity)
      → Live ending cur rows
      → Runs n ending
          (ahead is_deleted cur rows)
          adds
          (merge_loop is_deleted less n ending cur rows adds)
  unfolding merge_loop merged
  merge_loop-Runs zero ending cur rows adds l = (refl, λ h. absurd (omega (arith, h)))
  merge_loop-Runs (suc n) ending none rows [] (e, g) =
      (sym (ap (λ s. take (suc n) (merged less s [])) g), λ h. e)
  merge_loop-Runs (suc n) ending none rows (a ∷ adds) (e, g) =
      next-Runs n ending a (survivors is_deleted rows) adds (survivors is_deleted rows) (a ∷ adds)
        (merge_loop is_deleted less n ending none rows adds)
        (ap (λ s. merged less s (a ∷ adds)) g ∙ sym (ap (λ s. a ∷ merged less s adds) g))
        (merge_loop-Runs n ending none rows adds (e, g))
  merge_loop-Runs (suc n) ending (some c) rows [] l =
      taken-Runs n ending c rows [] (c ∷ survivors is_deleted rows) []
        (advance_to is_deleted less ending rows)
        (λ cur rest. merge_loop is_deleted less n ending cur rest [])
        (advance_to-Advanced ending rows) (alone less c (survivors is_deleted rows))
        (λ cur rest l'. merge_loop-Runs n ending cur rest [] l')
  merge_loop-Runs (suc n) ending (some c) rows (a ∷ adds) l = elim (Bool-cases (less a c)) [
    | inl h ↦
        rw (h, merge_loop)
          (next-Runs n ending a (c ∷ survivors is_deleted rows) adds (c ∷ survivors is_deleted rows)
            (a ∷ adds) (merge_loop is_deleted less n ending (some c) rows adds) (rw (h, merged))
            (merge_loop-Runs n ending (some c) rows adds tt))
    | inr h ↦
        rw (h, merge_loop)
          (taken-Runs n ending c rows (a ∷ adds) (c ∷ survivors is_deleted rows) (a ∷ adds)
            (advance_to is_deleted less ending rows)
            (λ cur rest. merge_loop is_deleted less n ending cur rest (a ∷ adds))
            (advance_to-Advanced ending rows) (rw (h, merged))
            (λ cur rest l'. merge_loop-Runs n ending cur rest (a ∷ adds) l'))
  ]
