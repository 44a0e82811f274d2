-- ===== src/Operators/Tests.antt =====
-- The operator theorems at 3.5 seconds before the epoch, floored to 4 seconds before it.
use cyoda_go_spi.Base.{◌≡◌, ◌↔◌, refl, arith, true, if◌then◌else◌, ◌&&◌, some, none, codes}
use cyoda_go_spi.Base.Int.{pos, negsuc, ◌+ℤ◌, ◌-ℤ◌, ◌*ℕ◌}
use cyoda_go_spi.Operators.{
  filter_gte, filter_like, ExpKind, cmp_result, mutate_downscale_op, compare_temporal, is_filter_ne,
  leaf_kind_of, map_operator, group_operator_to_filter_op, lookup_operator, filter_not, filter_gt,
}
use cyoda_go_spi.Operators.Names.{map_operator-leaf_kind_of}
use cyoda_go_spi.Operators.Compare.{
  compare_temporal-cmp_result, mutate_downscale_op-floor, range_gte,
}

mutate_downscale_op-floor_example :
    (cmp_result (negsuc 2 -ℤ negsuc 3) (mutate_downscale_op filter_gte)
      ≡ cmp_result (negsuc 2 *ℕ 1000 -ℤ negsuc 3499) filter_gte)
    × (mutate_downscale_op (mutate_downscale_op filter_gte) ≡ mutate_downscale_op filter_gte)
unfolding ◌*ℕ◌ ◌+ℤ◌
mutate_downscale_op-floor_example =
    mutate_downscale_op-floor 1000 (negsuc 3499) (negsuc 3) (negsuc 2) range_gte (omega arith)
      (omega arith)

compare_temporal-cmp_result_example :
    compare_temporal filter_gte (negsuc 4) true (pos 3) true
    ≡ (if true && true then cmp_result (negsuc 4 -ℤ pos 3) filter_gte else is_filter_ne filter_gte)
compare_temporal-cmp_result_example =
    compare_temporal-cmp_result filter_gte (negsuc 4) (pos 3) true true

map_operator-leaf_kind_of_example :
    ((kind : ExpKind) × (leaf_kind_of filter_like ≡ some kind))
    ↔ ((name : _) × (map_operator name ≡ some filter_like))
map_operator-leaf_kind_of_example = map_operator-leaf_kind_of filter_like

not_a_leaf : lookup_operator (codes "NOT") ≡ none
unfolding lookup_operator map_operator
not_a_leaf = refl

group : group_operator_to_filter_op (codes "NOT") ≡ some filter_not
unfolding group_operator_to_filter_op
group = refl

mutated : mutate_downscale_op filter_gte ≡ filter_gt
unfolding mutate_downscale_op
mutated = refl
