-- ===== src/Operators/Names.antt =====
-- The names of the operators: which are recognised, and for what they stand.
use mathlib.Core.Option.{some-injective}
use cyoda_go_spi.Base.{
  ◌≡◌, ◌↔◌, refl, sym, ap, ap₂, ◌∙◌, subst, inl, inr, Bool, true, false, ◌&&◌, ◌==◌, ==_iff, List,
  [], ◌∷◌, Option, none, some, Bytes, codes, map, all_of, any_of, In, Bool-cases, false≢true,
}
use cyoda_go_spi.Operators.{
  FilterOp, filter_eq, filter_ne, filter_gt, filter_lt, filter_gte, filter_lte, filter_contains,
  filter_starts_with, filter_ends_with, filter_like, filter_is_null, filter_not_null,
  filter_between, filter_between_inclusive, filter_matches_regex, filter_ieq, filter_ine,
  filter_icontains, filter_inot_contains, filter_not_contains, filter_istarts_with,
  filter_inot_starts_with, filter_not_starts_with, filter_iends_with, filter_inot_ends_with,
  filter_not_ends_with, filter_and, filter_or, filter_not, same_bytes, before_bytes, switch,
  operator_cases, map_operator, canonical_operator_names, leaf_kind_of, ExpKind,
}

both_true : (a b : Bool) → (a && b) ≡ true → (a ≡ true) × (b ≡ true)
both_true true b h = (refl, h)
both_true false b h = absurd (false≢true h)

pub same_bytes-eq : (s t : Bytes) → same_bytes s t ≡ true → s ≡ t
same_bytes-eq [] [] h = refl
same_bytes-eq (a ∷ s) (b ∷ t) h =
    let (e, k) = both_true (a == b) (same_bytes s t) h in
    ap₂ (λ x xs. x ∷ xs) ((==_iff a b).0 e) (same_bytes-eq s t k)
same_bytes-eq [] (b ∷ t) h = absurd (false≢true h)
same_bytes-eq (a ∷ s) [] h = absurd (false≢true h)

pub same_bytes_self : (s : Bytes) → same_bytes s s ≡ true
same_bytes_self [] = refl
same_bytes_self (a ∷ s) = rw ((==_iff a a).1 refl) (same_bytes_self s)

module _ {ℓ} {A : Type ℓ} where
  abbrev labels : List (Bytes × A) → List Bytes
  labels cases = map (λ c. c.0) cases

  -- What a `switch` returns belongs to a case with the given label.
  switch-some :
      (cases : List (Bytes × A)) (name : Bytes) (a : A)
      → switch cases name ≡ some a
      → In (name, a) cases
  switch-some [] name a h = cc h
  switch-some ((label, b) ∷ cases) name a h = elim (Bool-cases (same_bytes label name)) [
    | inl e ↦ inl (case_eq (same_bytes-eq label name e) (some-injective b a (sym (if_true e) ∙ h)))
    | inr e ↦ inr (switch-some cases name a (sym (if_false e) ∙ h))
  ]
    where
      case_eq : {c : Bytes} {a' : A} → c ≡ name → a' ≡ a → ◌≡◌ {A = Bytes × A} (c, a') (name, a)
      case_eq p q = ap₂ (λ x y. (x, y)) p q

      if_true : same_bytes label name ≡ true → switch ((label, b) ∷ cases) name ≡ some b
      if_true e = rw e

      if_false :
          same_bytes label name ≡ false → switch ((label, b) ∷ cases) name ≡ switch cases name
      if_false e = rw e

  switch-In :
      (cases : List (Bytes × A)) (name : Bytes)
      → In name (labels cases)
      → (a : A) × (switch cases name ≡ some a)
  switch-In [] name i = elim i [ ]
  switch-In ((label, b) ∷ cases) name i = elim (Bool-cases (same_bytes label name)) [
    | inl e ↦ (b, rw e)
    | inr e ↦ elim i [
      | inl h ↦
          absurd
            (false≢true (sym e ∙ subst (λ n. same_bytes label n ≡ true) h (same_bytes_self label)))
      | inr j ↦ let (a, s) = switch-In cases name j in (a, rw e s)
    ]
  ]

pub any_of-In :
    (name : Bytes) (names : List Bytes)
    → any_of (λ n. same_bytes n name) names ≡ true
    → In name names
any_of-In name [] h = absurd (false≢true h)
any_of-In name (n ∷ names) h = elim (Bool-cases (same_bytes n name)) [
  | inl e ↦ inl (same_bytes-eq n name e)
  | inr e ↦ inr (any_of-In name names (sym (rw e) ∙ h))
]

-- Each of the first names is one of the second.
within : List Bytes → List Bytes → Bool
within xs ys = all_of (λ x. any_of (λ y. same_bytes y x) ys) xs

within-In : (xs ys : List Bytes) → within xs ys ≡ true → (name : Bytes) → In name xs → In name ys
unfolding within
within-In (x ∷ xs) ys h name (inl e) = subst (λ n. In n ys) e (any_of-In x ys (both_true _ _ h).0)
within-In (x ∷ xs) ys h name (inr i) = within-In xs ys (both_true _ _ h).1 name i
within-In [] ys h name i = elim i [ ]

-- Every name stands before the next.
unfoldable pub sorted : List Bytes → Bool
sorted [] = true
sorted (x ∷ []) = true
sorted (x ∷ y ∷ ys) = before_bytes x y && sorted (y ∷ ys)

In-labels {ℓ} :
    {A : Type ℓ} (cases : List (Bytes × A)) (name : Bytes) (a : A)
    → In (name, a) cases
    → In name (labels cases)
In-labels [] name a i = elim i [ ]
In-labels (c ∷ cases) name a (inl e) = inl (ap (λ p. p.0) e)
In-labels (c ∷ cases) name a (inr i) = inr (In-labels cases name a i)

-- The list of canonical names is in strictly ascending byte order, and a text is in it exactly if
-- `MapOperator` recognises it.
pub canonical_operator_names-Exact :
    (sorted canonical_operator_names ≡ true)
    × ((name : Bytes)
        → In name canonical_operator_names ↔ ((op : FilterOp) × (map_operator name ≡ some op)))
unfolding map_operator within sorted
canonical_operator_names-Exact = (
  refl,
  λ name. (
    λ i.
        switch-In operator_cases name
          (within-In canonical_operator_names (labels operator_cases) refl name i),
    λ (op, e).
        within-In (labels operator_cases) canonical_operator_names refl name
          (In-labels operator_cases name op (switch-some operator_cases name op e)),
  ),
)

abbrev is_leaf : FilterOp → Bool
is_leaf op = elim (leaf_kind_of op) [ none ↦ false | some kind ↦ true ]

-- An operator belongs to a leaf family exactly if it is the meaning of a name.
pub map_operator-leaf_kind_of :
    (op : FilterOp)
    → ((kind : ExpKind) × (leaf_kind_of op ≡ some kind))
      ↔ ((name : Bytes) × (map_operator name ≡ some op))
unfolding map_operator leaf_kind_of
map_operator-leaf_kind_of op = (
  named op,
  λ (name, e). leaf op (In-leaf operator_cases refl name op (switch-some operator_cases name op e)),
)
  where
    named :
        (op : FilterOp)
        → ((kind : ExpKind) × (leaf_kind_of op ≡ some kind))
        → ((name : Bytes) × (map_operator name ≡ some op))
    named filter_eq k = (codes "EQUALS", refl)
    named filter_ne k = (codes "NOT_EQUAL", refl)
    named filter_gt k = (codes "GREATER_THAN", refl)
    named filter_lt k = (codes "LESS_THAN", refl)
    named filter_gte k = (codes "GREATER_OR_EQUAL", refl)
    named filter_lte k = (codes "LESS_OR_EQUAL", refl)
    named filter_contains k = (codes "CONTAINS", refl)
    named filter_starts_with k = (codes "STARTS_WITH", refl)
    named filter_ends_with k = (codes "ENDS_WITH", refl)
    named filter_like k = (codes "LIKE", refl)
    named filter_is_null k = (codes "IS_NULL", refl)
    named filter_not_null k = (codes "NOT_NULL", refl)
    named filter_between k = (codes "BETWEEN", refl)
    named filter_between_inclusive k = (codes "BETWEEN_INCLUSIVE", refl)
    named filter_matches_regex k = (codes "MATCHES_PATTERN", refl)
    named filter_ieq k = (codes "IEQUALS", refl)
    named filter_ine k = (codes "INOT_EQUAL", refl)
    named filter_icontains k = (codes "ICONTAINS", refl)
    named filter_inot_contains k = (codes "INOT_CONTAINS", refl)
    named filter_not_contains k = (codes "NOT_CONTAINS", refl)
    named filter_istarts_with k = (codes "ISTARTS_WITH", refl)
    named filter_inot_starts_with k = (codes "INOT_STARTS_WITH", refl)
    named filter_not_starts_with k = (codes "NOT_STARTS_WITH", refl)
    named filter_iends_with k = (codes "IENDS_WITH", refl)
    named filter_inot_ends_with k = (codes "INOT_ENDS_WITH", refl)
    named filter_not_ends_with k = (codes "NOT_ENDS_WITH", refl)
    named filter_and (k, e) = cc e
    named filter_or (k, e) = cc e
    named filter_not (k, e) = cc e

    In-leaf :
        (cases : List (Bytes × FilterOp))
        → all_of (λ c. is_leaf c.1) cases ≡ true
        → (name : Bytes) (op : FilterOp) → In (name, op) cases
        → is_leaf op ≡ true
    In-leaf [] h name op i = elim i [ ]
    In-leaf (c ∷ cases) h name op (inl e) =
        subst (λ p. is_leaf p.1 ≡ true) e
          (both_true (is_leaf c.1) (all_of (λ c. is_leaf c.1) cases) h).0
    In-leaf (c ∷ cases) h name op (inr i) =
        In-leaf cases (both_true (is_leaf c.1) (all_of (λ c. is_leaf c.1) cases) h).1 name op i

    by_kind :
        (k : Option ExpKind)
        → elim k as (λ _. Bool) [ none ↦ false | some kind ↦ true ] ≡ true
        → (kind : ExpKind) × (k ≡ some kind)
    by_kind none h = absurd (false≢true h)
    by_kind (some kind) h = (kind, refl)

    leaf : (op : FilterOp) → is_leaf op ≡ true → (kind : ExpKind) × (leaf_kind_of op ≡ some kind)
    leaf op h = by_kind (leaf_kind_of op) h
