-- ===== src/Base/Utf8.antt =====
-- What the source uses of Go's `unicode/utf8`, over texts as lists of bytes: the size that
-- `DecodeRuneInString` returns, and `ValidString` as a family. An invalid byte counts as a rune of
-- size 1, the empty text as one of size 0.
use cyoda_go_spi.Base.{
  ℕ, zero, suc, ◌-◌, ◌≤◌, ◌<◌, ◌≡◌, refl, sym, ◌∙◌, ap, Bool, true, false, ◌&&◌, ◌||◌, List, [],
  ◌∷◌, ◌++◌, arith, subst, inl, inr, Bytes, ltb, leb, ◌==◌, if◌then◌else◌, length, drop, take,
  Bool-cases,
}

unfoldable pub is_continuation : ℕ → Bool
is_continuation b = leb 0x80 b && leb b 0xBF

-- The number of bytes that a first byte asks for; 1 for ASCII and for what begins no rune.
unfoldable pub lead_length : ℕ → ℕ
lead_length b =
    if ltb b 0xC2
    then 1
    else if ltb b 0xE0
    then 2
    else if ltb b 0xF0
    then 3
    else if ltb b 0xF5
    then 4
    else 1

-- The range of the second byte excludes overlong forms, surrogates and what is above 0x10FFFF.
unfoldable pub second_fits : ℕ → ℕ → Bool
second_fits b c =
    if b == 0xE0
    then leb 0xA0 c && leb c 0xBF
    else if b == 0xED
    then leb 0x80 c && leb c 0x9F
    else if b == 0xF0
    then leb 0x90 c && leb c 0xBF
    else if b == 0xF4
    then leb 0x80 c && leb c 0x8F
    else leb 0x80 c && leb c 0xBF

unfoldable pub continues : ℕ → Bytes → Bool
continues zero s = true
continues (suc n) [] = false
continues (suc n) (b ∷ s) = is_continuation b && continues n s

unfoldable pub rune_size : Bytes → ℕ
rune_size [] = 0
rune_size (b ∷ []) = 1
rune_size (b ∷ c ∷ s) =
    if leb 2 (lead_length b) && (second_fits b c && continues (lead_length b - 2) s)
    then lead_length b
    else 1

-- What is left behind the first rune, and behind `n` runes.
abbrev pub rest_rune : Bytes → Bytes
rest_rune s = drop (rune_size s) s

abbrev pub first_rune : Bytes → Bytes
first_rune s = take (rune_size s) s

abbrev pub skip : ℕ → Bytes → Bytes
skip zero s = s
skip (suc n) s = skip n (rest_rune s)

-- The text begins with a rune that is well formed.
abbrev pub begins_rune : ℕ → Bytes → Bool
begins_rune b s = ltb b 0x80 || leb 2 (rune_size (b ∷ s))

-- Valid UTF-8.
pub data Utf8 : Bytes → Type 0 where
  end : Utf8 []
  rune : {b : ℕ} {s : Bytes} → begins_rune b s ≡ true → Utf8 (rest_rune (b ∷ s)) → Utf8 (b ∷ s)

pick : ℕ → Bool → ℕ
pick n ok = if leb 2 n && ok then n else 1

pick-pos : (n : ℕ) (ok : Bool) → 0 < pick n ok
unfolding pick
pick-pos n ok = ground arith

pick-le : (n m : ℕ) (ok : Bool) → (ok ≡ true → n - 2 ≤ m) → pick n ok ≤ suc (suc m)
unfolding pick
pick-le n m true h = let k = h refl in ground arith
pick-le n m false h = ground arith

pick-same :
    (n : ℕ) (ok ok' : Bool) → (ok ≡ true → ok' ≡ true) → 2 ≤ pick n ok → pick n ok' ≡ pick n ok
unfolding pick
pick-same n true ok' h k = rw (h refl)
pick-same n false ok' h k = absurd (small n k)
  where
    small : (n : ℕ) → 2 ≤ (if leb 2 n && false then n else 1) → ⊥
    small n k = ground arith

rune_size_two :
    (b c : ℕ) (s : Bytes)
    → rune_size (b ∷ c ∷ s)
      ≡ pick (lead_length b) (second_fits b c && continues (lead_length b - 2) s)
unfolding rune_size pick
rune_size_two b c s = refl

pub rune_size-ascii : (b : ℕ) (s : Bytes) → ltb b 0x80 ≡ true → rune_size (b ∷ s) ≡ 1
unfolding rune_size lead_length
rune_size-ascii b [] h = refl
rune_size-ascii b (c ∷ s) h = ground arith

pub rune_size-pos : (b : ℕ) (s : Bytes) → 0 < rune_size (b ∷ s)
unfolding rune_size
rune_size-pos b [] = omega arith
rune_size-pos b (c ∷ s) =
    rw rune_size_two (pick-pos (lead_length b) (second_fits b c && continues (lead_length b - 2) s))

and_right : (a b : Bool) → (a && b) ≡ true → b ≡ true
and_right a b h = ground arith

and_map : (a b c : Bool) → (a && b) ≡ true → (b ≡ true → c ≡ true) → (a && c) ≡ true
and_map true b c h f = f h
and_map false b c h f = h

continues-le : (n : ℕ) (s : Bytes) → continues n s ≡ true → n ≤ length s
unfolding continues
continues-le zero s h = omega arith
continues-le (suc n) [] h = cc
continues-le (suc n) (b ∷ s) h =
    omega (arith, continues-le n s (and_right (is_continuation b) (continues n s) h))

continues-append : (n : ℕ) (s t : Bytes) → continues n s ≡ true → continues n (s ++ t) ≡ true
unfolding continues
continues-append zero s t h = refl
continues-append (suc n) [] t h = cc
continues-append (suc n) (b ∷ s) t h =
    and_map (is_continuation b) (continues n s) (continues n (s ++ t)) h (continues-append n s t)

pub rune_size-le : (s : Bytes) → rune_size s ≤ length s
unfolding rune_size
rune_size-le [] = omega arith
rune_size-le (b ∷ []) = omega arith
rune_size-le (b ∷ c ∷ s) = rw rune_size_two (
    pick-le (lead_length b) (length s) (second_fits b c && continues (lead_length b - 2) s) λ h.
      continues-le (lead_length b - 2) s
        (and_right (second_fits b c) (continues (lead_length b - 2) s) h))

-- A well-formed first rune is decoded alike whatever stands behind it.
pub rune_size-append :
    (b : ℕ) (s t : Bytes) → begins_rune b s ≡ true → rune_size ((b ∷ s) ++ t) ≡ rune_size (b ∷ s)
rune_size-append b s t h = elim (Bool-cases (ltb b 0x80)) [
  | inl e ↦ rune_size-ascii b (s ++ t) e ∙ sym (rune_size-ascii b s e)
  | inr e ↦ long_rune b s t (or_right (ltb b 0x80) (rune_size (b ∷ s)) h e)
]
  where
    or_right : (a : Bool) (n : ℕ) → (a || leb 2 n) ≡ true → a ≡ false → 2 ≤ n
    or_right a n h e = ground arith

    long_rune :
        (b : ℕ) (s t : Bytes) → 2 ≤ rune_size (b ∷ s) → rune_size (b ∷ (s ++ t)) ≡ rune_size (b ∷ s)
    long_rune b [] t h = absurd (unfold rune_size in omega arith)
    long_rune b (c ∷ s) t h =
        rune_size_two b c (s ++ t)
        ∙ pick-same (lead_length b) (second_fits b c && continues (lead_length b - 2) s)
            (second_fits b c && continues (lead_length b - 2) (s ++ t))
            (λ k.
              and_map (second_fits b c) (continues (lead_length b - 2) s)
                (continues (lead_length b - 2) (s ++ t)) k
                (continues-append (lead_length b - 2) s t))
            (subst (λ n. 2 ≤ n) (rune_size_two b c s) h)
        ∙ sym (rune_size_two b c s)

pub drop-append {ℓ} :
    {A : Type ℓ} (n : ℕ) (xs ys : List A) → n ≤ length xs → drop n (xs ++ ys) ≡ drop n xs ++ ys
drop-append zero xs ys h = refl
drop-append (suc n) [] ys h = elim h [ ]
drop-append (suc n) (x ∷ xs) ys h = drop-append n xs ys (omega arith)

pub take-append {ℓ} :
    {A : Type ℓ} (n : ℕ) (xs ys : List A) → n ≤ length xs → take n (xs ++ ys) ≡ take n xs
take-append zero xs ys h = refl
take-append (suc n) [] ys h = elim h [ ]
take-append (suc n) (x ∷ xs) ys h = ap (λ l. x ∷ l) (take-append n xs ys (omega arith))

pub take-drop {ℓ} : {A : Type ℓ} (n : ℕ) (xs : List A) → take n xs ++ drop n xs ≡ xs
take-drop zero xs = refl
take-drop (suc n) [] = refl
take-drop (suc n) (x ∷ xs) = ap (λ l. x ∷ l) (take-drop n xs)

pub length-drop {ℓ} : {A : Type ℓ} (n : ℕ) (xs : List A) → length (drop n xs) ≡ length xs - n
length-drop zero xs = omega arith
length-drop (suc n) [] = omega arith
length-drop (suc n) (x ∷ xs) = omega (arith, length-drop n xs)

-- A first rune of a well-formed text is followed by what follows it there.
pub rest_rune-append :
    (b : ℕ) (s t : Bytes)
    → begins_rune b s ≡ true
    → rest_rune ((b ∷ s) ++ t) ≡ rest_rune (b ∷ s) ++ t
rest_rune-append b s t h =
    rw (rune_size-append b s t h) (drop-append (rune_size (b ∷ s)) (b ∷ s) t (rune_size-le (b ∷ s)))

-- A valid text in front of `t` is a number of runes of the whole.
pub Utf8-skip : (l : Bytes) → Utf8 l → (k : ℕ) × ((t : Bytes) → skip k (l ++ t) ≡ t)
Utf8-skip l end = (0, λ t. refl)
Utf8-skip l (rune {b} {s} h u) =
    let (k, e) = Utf8-skip (rest_rune (b ∷ s)) u in
    (suc k, λ t. ap (skip k) (rest_rune-append b s t h) ∙ e t)

pub skip_rest : (n : ℕ) (s : Bytes) → skip n (rest_rune s) ≡ rest_rune (skip n s)
skip_rest zero s = refl
skip_rest (suc n) s = skip_rest n (rest_rune s)

pub skip_comm : (m n : ℕ) (s : Bytes) → skip m (skip n s) ≡ skip n (skip m s)
skip_comm zero n s = refl
skip_comm (suc m) n s = ap (skip m) (sym (skip_rest n s)) ∙ skip_comm m n (rest_rune s)

pub length-rest_rune : (b : ℕ) (s : Bytes) → length (rest_rune (b ∷ s)) < length (b ∷ s)
length-rest_rune b s = omega (arith, length-drop (rune_size (b ∷ s)) (b ∷ s), rune_size-pos b s)

pub Utf8-append : (l t : Bytes) → Utf8 l → Utf8 t → Utf8 (l ++ t)
Utf8-append l t end v = v
Utf8-append l t (rune {b} {s} h u) v =
    rune (rw (rune_size-append b s t h) h)
      (subst Utf8 (sym (rest_rune-append b s t h)) (Utf8-append (rest_rune (b ∷ s)) t u v))

continues-take : (n : ℕ) (s : Bytes) → continues n s ≡ true → continues n (take n s) ≡ true
unfolding continues
continues-take zero s h = refl
continues-take (suc n) [] h = cc
continues-take (suc n) (b ∷ s) h =
    and_map (is_continuation b) (continues n s) (continues n (take n s)) h (continues-take n s)

pick_ok : (n : ℕ) (ok : Bool) → 2 ≤ pick n ok → (ok ≡ true) × (pick n ok ≡ n) × (2 ≤ n)
unfolding pick
pick_ok n ok h = ground arith

-- A rune of two bytes or more, alone, is that rune.
first_long :
    (b c : ℕ) (s : Bytes)
    → 2 ≤ rune_size (b ∷ c ∷ s)
    → rune_size (first_rune (b ∷ c ∷ s)) ≡ rune_size (b ∷ c ∷ s)
first_long b c s h =
    let long = subst (λ x. 2 ≤ x) (rune_size_two b c s) h in
    let (fine, exact, two) =
      pick_ok (lead_length b) (second_fits b c && continues (lead_length b - 2) s) long in
    let n : ℕ = lead_length b - 2 in
    let size : rune_size (b ∷ c ∷ s) ≡ suc (suc n) = rune_size_two b c s ∙ exact ∙ omega arith in
    ap (λ m. rune_size (take m (b ∷ c ∷ s))) size
    ∙ rune_size_two b c (take n s)
    ∙ pick-same (lead_length b) (second_fits b c && continues n s)
        (second_fits b c && continues n (take n s))
        (λ k.
          and_map (second_fits b c) (continues n s) (continues n (take n s)) k (continues-take n s))
        long
    ∙ sym (rune_size_two b c s)

first_size :
    (b : ℕ) (s : Bytes)
    → begins_rune b s ≡ true
    → rune_size (first_rune (b ∷ s)) ≡ rune_size (b ∷ s)
first_size b s h = elim (Bool-cases (ltb b 0x80)) [
  | inl e ↦ rw (rune_size-ascii b s e) (rune_size-ascii b [] e)
  | inr e ↦ multi b s (long_of (ltb b 0x80) (rune_size (b ∷ s)) h e)
]
  where
    long_of : (a : Bool) (n : ℕ) → (a || leb 2 n) ≡ true → a ≡ false → 2 ≤ n
    long_of a n h e = ground arith

    multi :
        (b : ℕ) (s : Bytes)
        → 2 ≤ rune_size (b ∷ s)
        → rune_size (first_rune (b ∷ s)) ≡ rune_size (b ∷ s)
    multi b [] h = absurd (unfold rune_size in omega arith)
    multi b (c ∷ s) h = first_long b c s h

pub length-take {ℓ} : {A : Type ℓ} (n : ℕ) (xs : List A) → n ≤ length xs → length (take n xs) ≡ n
length-take zero xs h = refl
length-take (suc n) [] h = elim h [ ]
length-take (suc n) (x ∷ xs) h = ap suc (length-take n xs (omega arith))

drop_all {ℓ} : {A : Type ℓ} (n : ℕ) (xs : List A) → length xs ≤ n → drop n xs ≡ []
drop_all zero [] h = refl
drop_all zero (x ∷ xs) h = absurd (omega arith)
drop_all (suc n) [] h = refl
drop_all (suc n) (x ∷ xs) h = drop_all n xs (omega arith)

-- The first rune of a well-formed text, alone, is a text of one rune.
pub first_rune-Utf8 : (b : ℕ) (s : Bytes) → begins_rune b s ≡ true → Utf8 (first_rune (b ∷ s))
first_rune-Utf8 b s h = from_size (rune_size (b ∷ s)) refl (rune_size-pos b s)
  where
    from_size : (n : ℕ) → rune_size (b ∷ s) ≡ n → 0 < n → Utf8 (take n (b ∷ s))
    from_size zero e p = absurd (omega arith)
    from_size (suc n) e p =
        let size : rune_size (b ∷ take n s) ≡ suc n =
          ap (λ m. rune_size (take m (b ∷ s))) (sym e) ∙ first_size b s h ∙ e in
        rune (rw size (rw e at h)) (
          rw size (subst Utf8 (sym (drop_all n (take n s) (le_of (length-take n s (fits e))))) end))
      where
        fits : rune_size (b ∷ s) ≡ suc n → n ≤ length s
        fits e = omega (arith, rune_size-le (b ∷ s))

        le_of : length (take n s) ≡ n → length (take n s) ≤ n
        le_of q = omega arith
