-- ===== src/Types/TypeSet/Members.antt =====
-- Membership in the lists that `TypeSet.Add` builds, and sorted lists as sets.
use cyoda_go_spi.Base.{
  ℕ, ◌<◌, ◌≡◌, refl, sym, ap₂, subst, ◌∙◌, inl, inr, Bool, true, false, ◌&&◌, ◌||◌, List, [], ◌∷◌,
  ◌++◌, arith, ◌==◌, ==_iff, leb, keep, All, Bool-cases,
}
use cyoda_go_spi.Types.{DataType, index, same, same_iff}
use cyoda_go_spi.Types.TypeSet.{contains, insert_type, sort_types}

or_regroup : (a b c : Bool) → (a || (b || c)) ≡ ((a || b) || c)
or_regroup a b c = ground arith

or_left_comm : (a b c : Bool) → (a || (b || c)) ≡ (b || (a || c))
or_left_comm a b c = ground arith

pub contains-append :
    (t : DataType) (xs ys : List DataType)
    → contains t (xs ++ ys) ≡ (contains t xs || contains t ys)
contains-append t [] ys = refl
contains-append t (x ∷ xs) ys =
    rw (contains-append t xs ys) (or_regroup (same x t) (contains t xs) (contains t ys))

absorb : (a : Bool) → false ≡ (a && false)
absorb a = ground arith

keep_step :
    (p : DataType → Bool) (t x : DataType) (c : Bool)
    → (p x ≡ true → (same x t || (p t && c)) ≡ (p t && (same x t || c)))
      × (p x ≡ false → (p t && c) ≡ (p t && (same x t || c)))
keep_step p t x c = elim (Bool-cases (same x t)) [
  | inl e ↦ rw (e, (same_iff x t).0 e) (ground arith, ground arith)
  | inr e ↦ rw e (ground arith, ground arith)
]

pub contains-keep :
    (p : DataType → Bool) (t : DataType) (xs : List DataType)
    → contains t (keep p xs) ≡ (p t && contains t xs)
contains-keep p t [] = absorb (p t)
contains-keep p t (x ∷ xs) = elim (Bool-cases (p x)) [
  | inl e ↦ rw (e, keep) (rw (contains-keep p t xs) ((keep_step p t x (contains t xs)).0 e))
  | inr e ↦ rw (e, keep) (contains-keep p t xs ∙ (keep_step p t x (contains t xs)).1 e)
]

pub contains-insert_type :
    (t d : DataType) (xs : List DataType)
    → contains t (insert_type d xs) ≡ (same d t || contains t xs)
unfolding insert_type
contains-insert_type t d [] = refl
contains-insert_type t d (x ∷ xs) = elim (Bool-cases (leb (index d) (index x))) [
  | inl e ↦ rw (e, insert_type)
  | inr e ↦
      rw (e, insert_type, contains-insert_type t d xs)
        (or_left_comm (same x t) (same d t) (contains t xs))
]

pub contains-sort_types :
    (t : DataType) (xs : List DataType) → contains t (sort_types xs) ≡ contains t xs
unfolding sort_types
contains-sort_types t [] = refl
contains-sort_types t (x ∷ xs) =
    contains-insert_type t x (sort_types xs) ∙ rw (contains-sort_types t xs)

pub index-injective : (a b : DataType) → index a ≡ index b → a ≡ b
index-injective a b h = (same_iff a b).0 ((==_iff (index a) (index b)).1 h)

-- In ascending order of the enumeration, so with no type twice.
abbrev pub Sorted : List DataType → Type 0
Sorted [] = Unit
Sorted (x ∷ xs) = All (λ y. index x < index y) xs × Sorted xs

abbrev pub Distinct : List DataType → Type 0
Distinct [] = Unit
Distinct (x ∷ xs) = (contains x xs ≡ false) × Distinct xs

All-insert_type :
    (P : DataType → Type 0) (t : DataType) (xs : List DataType)
    → P t
    → All P xs
    → All P (insert_type t xs)
unfolding insert_type
All-insert_type P t [] pt ps = (pt, tt)
All-insert_type P t (x ∷ xs) pt ps = elim (Bool-cases (leb (index t) (index x))) [
  | inl e ↦ rw (e, insert_type) (pt, ps)
  | inr e ↦ rw (e, insert_type) (ps.0, All-insert_type P t xs pt ps.1)
]

or_right : (a b : Bool) → (a || b) ≡ false → b ≡ false
or_right a b h = ground arith

not_leb : (a b : ℕ) → leb a b ≡ false → b < a
not_leb a b h = ground arith

lt_of_leb_ne : (a b : ℕ) (c : Bool) → ((b == a) || c) ≡ false → leb a b ≡ true → a < b
lt_of_leb_ne a b c h e = ground arith

lt_head :
    (t x : DataType) (xs : List DataType)
    → contains t (x ∷ xs) ≡ false
    → leb (index t) (index x) ≡ true
    → index t < index x
lt_head t x xs h e = lt_of_leb_ne (index t) (index x) (contains t xs) h e

lt_trans3 : (a b c : ℕ) → a < b → b < c → a < c
lt_trans3 a b c h k = omega arith

below_tail :
    (t x : DataType) (xs : List DataType)
    → index t < index x
    → All (λ y. index x < index y) xs
    → All (λ y. index t < index y) xs
below_tail t x [] h a = tt
below_tail t x (y ∷ ys) h a =
    (lt_trans3 (index t) (index x) (index y) h a.0, below_tail t x ys h a.1)

insert_type-Sorted :
    (t : DataType) (xs : List DataType)
    → contains t xs ≡ false
    → Sorted xs
    → Sorted (insert_type t xs)
unfolding insert_type
insert_type-Sorted t [] h s = (tt, tt)
insert_type-Sorted t (x ∷ xs) h s = elim (Bool-cases (leb (index t) (index x))) [
  | inl e ↦
      rw (e, insert_type) ((lt_head t x xs h e, below_tail t x xs (lt_head t x xs h e) s.0), s)
  | inr e ↦
      rw (e, insert_type)
        (
          All-insert_type (λ y. index x < index y) t xs (not_leb (index t) (index x) e) s.0,
          insert_type-Sorted t xs (or_right (same x t) (contains t xs) h) s.1,
        )
]

pub sort_types-Sorted : (xs : List DataType) → Distinct xs → Sorted (sort_types xs)
unfolding sort_types
sort_types-Sorted [] d = tt
sort_types-Sorted (x ∷ xs) d =
    insert_type-Sorted x (sort_types xs) (contains-sort_types x xs ∙ d.0) (sort_types-Sorted xs d.1)

-- An element of a list has what all elements have.
pub All-contains :
    (P : DataType → Type 0) (t : DataType) (xs : List DataType)
    → All P xs
    → contains t xs ≡ true
    → P t
All-contains P t [] a h = cc
All-contains P t (x ∷ xs) a h = elim (Bool-cases (same x t)) [
  | inl e ↦ subst P ((same_iff x t).0 e) a.0
  | inr e ↦ All-contains P t xs a.1 (or_drop (same x t) (contains t xs) e h)
]
  where
    or_drop : (a b : Bool) → a ≡ false → (a || b) ≡ true → b ≡ true
    or_drop a b e h = ground arith

pub contains_head : (x : DataType) (xs : List DataType) → contains x (x ∷ xs) ≡ true
contains_head x xs = rw ((same_iff x x).1 refl)

not_below :
    (x : DataType) (xs : List DataType) → All (λ y. index x < index y) xs → contains x xs ≡ false
not_below x xs a = elim (Bool-cases (contains x xs)) [
  | inl e ↦ absurd (not_self (index x) (All-contains (λ y. index x < index y) x xs a e))
  | inr e ↦ e
]
  where
    not_self : (n : ℕ) → n < n → ⊥
    not_self n h = omega arith

-- Two sorted lists begin alike if each holds the other's head.
same_head :
    (x y : DataType) (xs ys : List DataType)
    → Sorted (x ∷ xs)
    → Sorted (y ∷ ys)
    → contains x (y ∷ ys) ≡ true
    → contains y (x ∷ xs) ≡ true
    → x ≡ y
same_head x y xs ys s s' h h' = elim (Bool-cases (same y x)) [
  | inl e ↦ sym ((same_iff y x).0 e)
  | inr e ↦ elim (Bool-cases (same x y)) [
    | inl f ↦ (same_iff x y).0 f
    | inr f ↦ absurd (
        cycle (index x) (index y)
          (All-contains (λ t. index x < index t) y xs s.0 (rest (same x y) (contains y xs) f h'))
          (All-contains (λ t. index y < index t) x ys s'.0 (rest (same y x) (contains x ys) e h)))
  ]
]
  where
    rest : (a b : Bool) → a ≡ false → (a || b) ≡ true → b ≡ true
    rest a b e h = ground arith

    cycle : (m n : ℕ) → m < n → n < m → ⊥
    cycle m n h k = omega arith

-- A set is what it contains.
pub Sorted-ext :
    (xs ys : List DataType)
    → Sorted xs
    → Sorted ys
    → ((t : DataType) → contains t xs ≡ contains t ys)
    → xs ≡ ys
Sorted-ext [] [] s s' h = refl
Sorted-ext [] (y ∷ ys) s s' h = cc (h y, contains_head y ys)
Sorted-ext (x ∷ xs) [] s s' h = cc (h x, contains_head x xs)
Sorted-ext (x ∷ xs) (y ∷ ys) s s' h =
    let e = same_head x y xs ys s s' (sym (h x) ∙ contains_head x xs) (h y ∙ contains_head y ys) in
    ap₂ ◌∷◌ e (Sorted-ext xs ys s.1 s'.1 λ t. tails t e)
  where
    strip : (a b c : Bool) → a ≡ false → (a || b) ≡ (a || c) → b ≡ c
    strip a b c e h = ground arith

    tails : (t : DataType) → x ≡ y → contains t xs ≡ contains t ys
    tails t e = elim (Bool-cases (same x t)) [
      | inl f ↦
          subst (λ z. contains z xs ≡ contains z ys) ((same_iff x t).0 f)
            (not_below x xs s.0 ∙ sym (rw e (not_below y ys s'.0)))
      | inr f ↦ strip (same x t) (contains t xs) (contains t ys) f (rw (← e) at (h t))
    ]

pub keep-Distinct : (p : DataType → Bool) (xs : List DataType) → Distinct xs → Distinct (keep p xs)
keep-Distinct p [] d = tt
keep-Distinct p (x ∷ xs) d = elim (Bool-cases (p x)) [
  | inl e ↦ rw (e, keep) (contains-keep p x xs ∙ rw d.0 (absurd_and (p x)), keep-Distinct p xs d.1)
  | inr e ↦ rw (e, keep) (keep-Distinct p xs d.1)
]
  where
    absurd_and : (a : Bool) → (a && false) ≡ false
    absurd_and a = ground arith

pub append-Distinct :
    (xs : List DataType) (c : DataType)
    → Distinct xs
    → contains c xs ≡ false
    → Distinct (xs ++ c ∷ [])
append-Distinct [] c d h = (refl, tt)
append-Distinct (x ∷ xs) c d h = (
  contains-append x xs (c ∷ []) ∙ rw d.0 (other x c (contains c xs) h),
  append-Distinct xs c d.1 (or_right (same x c) (contains c xs) h),
)
  where
    other :
        (a b : DataType) (r : Bool)
        → (same a b || r) ≡ false
        → (false || (same b a || false)) ≡ false
    other a b r h = swap (index a) (index b) r h
      where
        swap :
            (m n : ℕ) (r : Bool) → ((m == n) || r) ≡ false → (false || ((n == m) || false)) ≡ false
        swap m n r h = ground arith

pub Sorted-Distinct : (xs : List DataType) → Sorted xs → Distinct xs
Sorted-Distinct [] s = tt
Sorted-Distinct (x ∷ xs) s = (not_below x xs s.0, Sorted-Distinct xs s.1)

pub keep-Sorted : (p : DataType → Bool) (xs : List DataType) → Sorted xs → Sorted (keep p xs)
keep-Sorted p [] s = tt
keep-Sorted p (x ∷ xs) s = elim (Bool-cases (p x)) [
  | inl e ↦ rw (e, keep) (All-keep (λ y. index x < index y) p xs s.0, keep-Sorted p xs s.1)
  | inr e ↦ rw (e, keep) (keep-Sorted p xs s.1)
]
  where
    All-keep :
        (P : DataType → Type 0) (p : DataType → Bool) (xs : List DataType)
        → All P xs
        → All P (keep p xs)
    All-keep P p [] a = tt
    All-keep P p (x ∷ xs) a = elim (Bool-cases (p x)) [
      | inl e ↦ rw (e, keep) (a.0, All-keep P p xs a.1)
      | inr e ↦ rw (e, keep) (All-keep P p xs a.1)
    ]
