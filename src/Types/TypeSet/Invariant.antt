-- ===== src/Types/TypeSet/Invariant.antt =====
-- What `TypeSet.Add` keeps: the set against the list of all types that were ever added to it.
use cyoda_go_spi.Base.{
  ◌≡◌, refl, ap, subst, ◌∙◌, inl, inr, Bool, true, false, not, ◌&&◌, ◌||◌, List, [], ◌∷◌, ◌++◌,
  arith, keep, any_of, Bool-cases,
}
use cyoda_go_spi.Types.{DataType, null, same, same_iff, is_numeric}
use cyoda_go_spi.Types.Lattice.{Widens}
use cyoda_go_spi.Types.TypeSet.{TypeSet, contains, not_null, sort_types, collapse, add}
use cyoda_go_spi.Types.TypeSet.Members.{
  contains-append, contains-keep, Sorted, Distinct, Sorted-ext, Sorted-Distinct, keep-Distinct,
  keep-Sorted, append-Distinct,
}

-- `r` is the least type that every numeric type of the list widens to, and there is one.
pub record LubOf (r : DataType) (seen : List DataType) : Type 0 where
  pub numeric : is_numeric r ≡ true
  pub witness : (t : DataType) × (is_numeric t ≡ true) × (contains t seen ≡ true)
  pub upper : (t : DataType) → is_numeric t ≡ true → contains t seen ≡ true → Widens t r
  pub least :
      (u : DataType)
      → ((t : DataType) → is_numeric t ≡ true → contains t seen ≡ true → Widens t u)
      → Widens r u

-- Of the numeric types that were added the set keeps one, their least upper bound.
pub data Nums (seen ts : List DataType) : Type 0 where
  no_nums :
      ((t : DataType) → is_numeric t ≡ true → contains t ts ≡ false)
      → ((t : DataType) → is_numeric t ≡ true → contains t seen ≡ false)
      → Nums seen ts
  one_num :
      (r : DataType)
      → ((t : DataType) → is_numeric t ≡ true → contains t ts ≡ same r t)
      → LubOf r seen
      → Nums seen ts

-- The set `ts` sums up the types `seen`: all that are neither numeric nor null, the least upper
-- bound of the numeric ones, and null if nothing else was seen.
pub record Sums (seen : List DataType) (ts : TypeSet) : Type 0 where
  pub sorted : Sorted ts
  pub others :
      (t : DataType) → is_numeric t ≡ false → not_null t ≡ true → contains t ts ≡ contains t seen
  pub nums : Nums seen ts
  pub nulls : contains null ts ≡ (contains null seen && not (any_of not_null seen))
  pub concrete : any_of not_null ts ≡ any_of not_null seen

pub numeric-not_null : (t : DataType) → is_numeric t ≡ true → not_null t ≡ true
numeric-not_null t h = ground arith

pub any_of-append :
    (p : DataType → Bool) (xs ys : List DataType)
    → any_of p (xs ++ ys) ≡ (any_of p xs || any_of p ys)
any_of-append p [] ys = refl
any_of-append p (x ∷ xs) ys = rw (any_of-append p xs ys) (regroup (p x) (any_of p xs) (any_of p ys))
  where
    regroup : (a b c : Bool) → (a || (b || c)) ≡ ((a || b) || c)
    regroup a b c = ground arith

pub any_of-contains :
    (p : DataType → Bool) (t : DataType) (xs : List DataType)
    → p t ≡ true
    → contains t xs ≡ true
    → any_of p xs ≡ true
any_of-contains p t [] pt h = cc
any_of-contains p t (x ∷ xs) pt h = elim (Bool-cases (same x t)) [
  | inl e ↦ rw ((same_iff x t).0 e, pt)
  | inr e ↦
      later (p x) (any_of p xs)
        (any_of-contains p t xs pt (drop_first (same x t) (contains t xs) e h))
]
  where
    drop_first : (a b : Bool) → a ≡ false → (a || b) ≡ true → b ≡ true
    drop_first a b e h = ground arith

    later : (a b : Bool) → b ≡ true → (a || b) ≡ true
    later a b h = ground arith

keep-append :
    (p : DataType → Bool) (xs ys : List DataType) → keep p (xs ++ ys) ≡ keep p xs ++ keep p ys
keep-append p [] ys = refl
keep-append p (x ∷ xs) ys = elim (Bool-cases (p x)) [
  | inl e ↦ rw (e, keep, keep-append p xs ys)
  | inr e ↦ rw (e, keep, keep-append p xs ys)
]

-- Dropping what the first test drops anyway changes nothing.
keep-keep :
    (p q : DataType → Bool) (xs : List DataType)
    → ((x : DataType) → p x ≡ true → q x ≡ true)
    → keep p (keep q xs) ≡ keep p xs
keep-keep p q [] h = refl
keep-keep p q (x ∷ xs) h = elim (Bool-cases (q x)) [
  | inl e ↦ elim (Bool-cases (p x)) [
    | inl f ↦ rw (e, keep, f, keep) (ap (λ l. x ∷ l) (keep-keep p q xs h))
    | inr f ↦ rw (e, keep, f, keep) (keep-keep p q xs h)
  ]
  | inr e ↦ elim (Bool-cases (p x)) [
    | inl f ↦ cc (h x f)
    | inr f ↦ rw (e, keep, f, keep) (keep-keep p q xs h)
  ]
]

pub nothing_left :
    (ts : List DataType) → any_of not_null ts ≡ false → contains null ts ≡ false → ts ≡ []
nothing_left [] h k = refl
nothing_left (t ∷ ts) h k = absurd (clash (same t null) (any_of not_null ts) (contains null ts) h k)
  where
    clash : (a b c : Bool) → (not a || b) ≡ false → (a || c) ≡ false → ⊥
    clash a b c h k = ground arith

-- What `Add` sorts: the set with the new type behind it.
abbrev pub appended : TypeSet → DataType → List DataType
appended ts d = keep not_null (ts ++ d ∷ [])

pub contains-appended :
    (ts : TypeSet) (d t : DataType)
    → contains t (appended ts d) ≡ (not_null t && (contains t ts || (same d t || false)))
contains-appended ts d t =
    rw (contains-keep not_null t (ts ++ d ∷ []), contains-append t ts (d ∷ []))

pub appended-Distinct :
    (ts : TypeSet) (d : DataType) → Sorted ts → contains d ts ≡ false → Distinct (appended ts d)
appended-Distinct ts d s h =
    keep-Distinct not_null (ts ++ d ∷ []) (append-Distinct ts d (Sorted-Distinct ts s) h)

pub add_new :
    (ts : TypeSet) (d : DataType)
    → not_null d ≡ true
    → contains d ts ≡ false
    → add ts d ≡ sort_types (collapse (appended ts d))
unfolding add
add_new ts d c h = elim (Bool-cases (same d null)) [ inl e ↦ cc (ap not e) | inr e ↦ rw (e, h) ]

-- The numeric types that `collapse` sees.
pub numerics-appended :
    (ts : TypeSet) (d : DataType)
    → keep is_numeric (appended ts d) ≡ keep is_numeric ts ++ keep is_numeric (d ∷ [])
numerics-appended ts d =
    keep-keep is_numeric not_null (ts ++ d ∷ []) numeric-not_null
    ∙ keep-append is_numeric ts (d ∷ [])

and_false : (a b : Bool) → (a ≡ true → b ≡ false) → (a && b) ≡ false
and_false true b h = h refl
and_false false b h = refl

pub or_false : (a : Bool) → a ≡ (a || false)
or_false a = ground arith

pub same_numeric : (r t : DataType) → is_numeric r ≡ true → is_numeric t ≡ false → same r t ≡ false
same_numeric r t n e = elim (Bool-cases (same r t)) [
  | inl f ↦ cc (subst (λ x. is_numeric x ≡ true) ((same_iff r t).0 f) n)
  | inr f ↦ f
]

pub numerics_none :
    (ts : TypeSet)
    → Sorted ts
    → ((t : DataType) → is_numeric t ≡ true → contains t ts ≡ false)
    → keep is_numeric ts ≡ []
numerics_none ts s h =
    Sorted-ext (keep is_numeric ts) [] (keep-Sorted is_numeric ts s) tt
      λ t. contains-keep is_numeric t ts ∙ and_false (is_numeric t) (contains t ts) (h t)

pub numerics_one :
    (ts : TypeSet) (r : DataType)
    → Sorted ts
    → is_numeric r ≡ true
    → ((t : DataType) → is_numeric t ≡ true → contains t ts ≡ same r t)
    → keep is_numeric ts ≡ r ∷ []
numerics_one ts r s n h =
    Sorted-ext (keep is_numeric ts) (r ∷ []) (keep-Sorted is_numeric ts s) (tt, tt)
      λ t. contains-keep is_numeric t ts ∙ elim (Bool-cases (is_numeric t)) [
        | inl e ↦ rw (e, h t e) (or_false (same r t))
        | inr e ↦ rw (e, same_numeric r t n e)
      ]
