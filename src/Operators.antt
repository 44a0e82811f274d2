-- ===== src/Operators.antt =====
-- The operators of filter.go, their names in condition_filter.go (`MapOperator` and the list of
-- canonical names), the leaf families of eval_leaf.go, and the single comparisons of eval_leaf.go,
-- temporal.go and temporal_subtype.go. The zero `FilterOp` is `none`; a three-way comparison is an
-- integer below, at or above 0.
pub mod Names
pub mod Compare
mod Tests
use cyoda_go_spi.Base.{
  ℕ, ◌==◌, ltb, Bool, true, false, not, ◌&&◌, List, [], ◌∷◌, Option, none, some, Bytes, codes,
  if◌then◌else◌,
}
use cyoda_go_spi.Base.Int.{ℤ, pos, negsuc, ltb_ℤ, leb_ℤ, eqb_ℤ}

pub data FilterOp : Type 0 where
  filter_and filter_or filter_not : FilterOp
  filter_eq filter_ne filter_gt filter_lt filter_gte filter_lte : FilterOp
  filter_contains filter_starts_with filter_ends_with filter_like : FilterOp
  filter_is_null filter_not_null : FilterOp
  filter_between filter_between_inclusive filter_matches_regex : FilterOp
  filter_ieq filter_ine filter_icontains filter_inot_contains filter_not_contains : FilterOp
  filter_istarts_with filter_inot_starts_with filter_not_starts_with : FilterOp
  filter_iends_with filter_inot_ends_with filter_not_ends_with : FilterOp

abbrev pub same_bytes : Bytes → Bytes → Bool
same_bytes [] [] = true
same_bytes (a ∷ s) (b ∷ t) = a == b && same_bytes s t
same_bytes _ _ = false

-- Go's order of strings.
abbrev pub before_bytes : Bytes → Bytes → Bool
before_bytes [] [] = false
before_bytes [] (b ∷ t) = true
before_bytes (a ∷ s) [] = false
before_bytes (a ∷ s) (b ∷ t) = if a == b then before_bytes s t else ltb a b

-- A `switch` on a string: the first case with that label.
abbrev pub switch {ℓ} : {A : Type ℓ} → List (Bytes × A) → Bytes → Option A
switch [] name = none
switch ((label, a) ∷ cases) name = if same_bytes label name then some a else switch cases name

abbrev pub operator_cases : List (Bytes × FilterOp)
operator_cases =
    (codes "EQUALS", filter_eq)
    ∷ (codes "NOT_EQUAL", filter_ne)
    ∷ (codes "GREATER_THAN", filter_gt)
    ∷ (codes "LESS_THAN", filter_lt)
    ∷ (codes "GREATER_OR_EQUAL", filter_gte)
    ∷ (codes "LESS_OR_EQUAL", filter_lte)
    ∷ (codes "CONTAINS", filter_contains)
    ∷ (codes "STARTS_WITH", filter_starts_with)
    ∷ (codes "ENDS_WITH", filter_ends_with)
    ∷ (codes "LIKE", filter_like)
    ∷ (codes "IS_NULL", filter_is_null)
    ∷ (codes "NOT_NULL", filter_not_null)
    ∷ (codes "BETWEEN", filter_between)
    ∷ (codes "BETWEEN_INCLUSIVE", filter_between_inclusive)
    ∷ (codes "MATCHES_PATTERN", filter_matches_regex)
    ∷ (codes "IEQUALS", filter_ieq)
    ∷ (codes "INOT_EQUAL", filter_ine)
    ∷ (codes "ICONTAINS", filter_icontains)
    ∷ (codes "INOT_CONTAINS", filter_inot_contains)
    ∷ (codes "NOT_CONTAINS", filter_not_contains)
    ∷ (codes "ISTARTS_WITH", filter_istarts_with)
    ∷ (codes "INOT_STARTS_WITH", filter_inot_starts_with)
    ∷ (codes "NOT_STARTS_WITH", filter_not_starts_with)
    ∷ (codes "IENDS_WITH", filter_iends_with)
    ∷ (codes "INOT_ENDS_WITH", filter_inot_ends_with)
    ∷ (codes "NOT_ENDS_WITH", filter_not_ends_with)
    ∷ []

unfoldable pub map_operator : Bytes → Option FilterOp
map_operator op = switch operator_cases op

-- `f, f != ""`
unfoldable pub lookup_operator : Bytes → Option FilterOp
unfolding map_operator
lookup_operator op = elim (map_operator op) [ none ↦ none | some f ↦ some f ]

abbrev pub canonical_operator_names : List Bytes
canonical_operator_names =
    codes "BETWEEN"
    ∷ codes "BETWEEN_INCLUSIVE"
    ∷ codes "CONTAINS"
    ∷ codes "ENDS_WITH"
    ∷ codes "EQUALS"
    ∷ codes "GREATER_OR_EQUAL"
    ∷ codes "GREATER_THAN"
    ∷ codes "ICONTAINS"
    ∷ codes "IENDS_WITH"
    ∷ codes "IEQUALS"
    ∷ codes "INOT_CONTAINS"
    ∷ codes "INOT_ENDS_WITH"
    ∷ codes "INOT_EQUAL"
    ∷ codes "INOT_STARTS_WITH"
    ∷ codes "ISTARTS_WITH"
    ∷ codes "IS_NULL"
    ∷ codes "LESS_OR_EQUAL"
    ∷ codes "LESS_THAN"
    ∷ codes "LIKE"
    ∷ codes "MATCHES_PATTERN"
    ∷ codes "NOT_CONTAINS"
    ∷ codes "NOT_ENDS_WITH"
    ∷ codes "NOT_EQUAL"
    ∷ codes "NOT_NULL"
    ∷ codes "NOT_STARTS_WITH"
    ∷ codes "STARTS_WITH"
    ∷ []

abbrev pub group_cases : List (Bytes × FilterOp)
group_cases = (codes "AND", filter_and) ∷ (codes "OR", filter_or) ∷ (codes "NOT", filter_not) ∷ []

unfoldable pub group_operator_to_filter_op : Bytes → Option FilterOp
group_operator_to_filter_op operator = switch group_cases operator

-- `expKind`
pub data ExpKind : Type 0 where
  kind_unary kind_string_op kind_between kind_compare : ExpKind

unfoldable pub leaf_kind_of : FilterOp → Option ExpKind
leaf_kind_of filter_eq = some kind_compare
leaf_kind_of filter_ne = some kind_compare
leaf_kind_of filter_gt = some kind_compare
leaf_kind_of filter_lt = some kind_compare
leaf_kind_of filter_gte = some kind_compare
leaf_kind_of filter_lte = some kind_compare
leaf_kind_of filter_contains = some kind_string_op
leaf_kind_of filter_starts_with = some kind_string_op
leaf_kind_of filter_ends_with = some kind_string_op
leaf_kind_of filter_like = some kind_string_op
leaf_kind_of filter_is_null = some kind_unary
leaf_kind_of filter_not_null = some kind_unary
leaf_kind_of filter_between = some kind_between
leaf_kind_of filter_between_inclusive = some kind_between
leaf_kind_of filter_matches_regex = some kind_string_op
leaf_kind_of filter_ieq = some kind_string_op
leaf_kind_of filter_ine = some kind_string_op
leaf_kind_of filter_icontains = some kind_string_op
leaf_kind_of filter_inot_contains = some kind_string_op
leaf_kind_of filter_not_contains = some kind_string_op
leaf_kind_of filter_istarts_with = some kind_string_op
leaf_kind_of filter_inot_starts_with = some kind_string_op
leaf_kind_of filter_not_starts_with = some kind_string_op
leaf_kind_of filter_iends_with = some kind_string_op
leaf_kind_of filter_inot_ends_with = some kind_string_op
leaf_kind_of filter_not_ends_with = some kind_string_op
leaf_kind_of _ = none

-- Whether an operator's result is read off a three-way comparison.
unfoldable pub cmp_result : ℤ → FilterOp → Bool
cmp_result cmp filter_eq = eqb_ℤ cmp (pos 0)
cmp_result cmp filter_ne = not (eqb_ℤ cmp (pos 0))
cmp_result cmp filter_gt = ltb_ℤ (pos 0) cmp
cmp_result cmp filter_gte = leb_ℤ (pos 0) cmp
cmp_result cmp filter_lt = ltb_ℤ cmp (pos 0)
cmp_result cmp filter_lte = leb_ℤ cmp (pos 0)
cmp_result cmp _ = false

unfoldable pub is_filter_ne : FilterOp → Bool
is_filter_ne filter_ne = true
is_filter_ne _ = false

-- The comparison of two instants under an operator.
unfoldable pub compare_instants : FilterOp → ℤ → ℤ → Bool
compare_instants filter_eq stored cmp = eqb_ℤ stored cmp
compare_instants filter_ne stored cmp = not (eqb_ℤ stored cmp)
compare_instants filter_gt stored cmp = ltb_ℤ cmp stored
compare_instants filter_lt stored cmp = ltb_ℤ stored cmp
compare_instants filter_gte stored cmp = leb_ℤ cmp stored
compare_instants filter_lte stored cmp = leb_ℤ stored cmp
compare_instants _ stored cmp = false

unfoldable pub compare_temporal : FilterOp → ℤ → Bool → ℤ → Bool → Bool
unfolding is_filter_ne compare_instants
compare_temporal op stored stored_ok cmp cmp_ok =
    if stored_ok && cmp_ok then compare_instants op stored cmp else is_filter_ne op

unfoldable pub mutate_downscale_op : FilterOp → FilterOp
mutate_downscale_op filter_gte = filter_gt
mutate_downscale_op filter_lt = filter_lte
mutate_downscale_op op = op
