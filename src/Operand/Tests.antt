-- ===== src/Operand/Tests.antt =====
-- Operands at concrete values.
use cyoda_go_spi.Base.{◌≡◌, ◌↔◌, refl, none, some, codes, [], ◌∷◌, true}
use cyoda_go_spi.Base.Int.{pos, negsuc}
use cyoda_go_spi.Base.Digits.{print}
use cyoda_go_spi.Operators.{filter_between, filter_contains}
use cyoda_go_spi.Operand.{
  missing, truth, int, float, array, end, ◌▷◌, validate_operand, operand_shape_of, check_array,
  check_bounds, count, is_range, between_count, between_null_bound, operand_missing, is_presence,
  operand_string, values_to_strings, sprint, print_int, print_bool,
}
use cyoda_go_spi.Operand.Valid.{Fits, validate_operand-Fits}

validate_operand-Fits_example :
    (validate_operand filter_between (array (int (negsuc 4) ▷ float (codes "2.5") ▷ end)) ≡ none)
    ↔ Fits filter_between (array (int (negsuc 4) ▷ float (codes "2.5") ▷ end))
validate_operand-Fits_example =
    validate_operand-Fits filter_between (array (int (negsuc 4) ▷ float (codes "2.5") ▷ end))

one_bound : validate_operand filter_between (array (int (pos 1) ▷ end)) ≡ some (between_count 1)
unfolding validate_operand operand_shape_of check_array count is_range
one_bound = refl

null_bound :
    validate_operand filter_between (array (missing ▷ int (pos 1) ▷ end)) ≡ some between_null_bound
unfolding validate_operand operand_shape_of check_array check_bounds count is_range
null_bound = refl

nothing_contained : validate_operand filter_contains missing ≡ some operand_missing
unfolding validate_operand operand_shape_of is_presence
nothing_contained = refl

strings :
    values_to_strings (int (negsuc 11) ▷ array (missing ▷ truth true ▷ end) ▷ missing ▷ end)
    ≡ codes "-12" ∷ codes "[<nil> true]" ∷ [] ∷ []
unfolding values_to_strings operand_string sprint print_int print_bool print
strings = refl
