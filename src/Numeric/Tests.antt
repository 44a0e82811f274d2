-- ===== src/Numeric/Tests.antt =====
-- A stored 5 against the operand 5.5, for a field of the types INTEGER and DOUBLE.
use cyoda_go_spi.Base.{◌&&◌, true, ◌^◌, ◌≡◌, refl, arith, codes, [], ◌∷◌, some, List, true}
use cyoda_go_spi.Base.Int.{pos, leb_ℤ, ◌-ℤ◌}
use cyoda_go_spi.Types.{DataType, integer, double, numeric_rank}
use cyoda_go_spi.Operators.{cmp_result}
use cyoda_go_spi.Decimal.{Decimal, cmp, strip_trailing_zeros}
use cyoda_go_spi.Numeric.{
  whole, classify_integer, eval_leaf_number, admits_numeric, admits_stripped, admits_whole_in_range,
  to_range,
}
use cyoda_go_spi.Numeric.Grid.{less, op_of}
use cyoda_go_spi.Decimal.Text.{
  parse_decimal, split_exponent, read_mantissa, sign_of, split_point, read_parts, with_exponent,
  read_exponent, build, wrap_int64, cut_at, to_lower, one_of,
}
use cyoda_go_spi.Numeric.Texts.{eval_leaf_text, eval_leaf_text-cmp_result}
use cyoda_go_spi.Numeric.Between.{
  from, upto, eval_between_number, eval_between_number-eval_leaf_number,
}
use cyoda_go_spi.Numeric.Classify.{classify_integer-admits_numeric}
use cyoda_go_spi.Numeric.Search.{admitted, eval_leaf_number-cmp_result}

abbrev stored : Decimal
stored = record { unscaled = pos 5; scale = pos 0 }

abbrev operand : Decimal
operand = record { unscaled = pos 550; scale = pos 2 }

abbrev declared : List DataType
declared = integer ∷ double ∷ []

stored-admitted : admitted stored declared ≡ true
unfolding admits_numeric admits_stripped admits_whole_in_range to_range strip_trailing_zeros cmp
stored-admitted = refl

eval_leaf_number-cmp_result_example :
    eval_leaf_number (op_of less) operand declared (some stored)
    ≡ cmp_result (cmp stored operand) (op_of less)
eval_leaf_number-cmp_result_example =
    eval_leaf_number-cmp_result less operand stored declared (omega arith, omega arith)
      (omega arith, omega arith) stored-admitted

-- 2 ^ 31 is the first number that is no INTEGER.
classify_integer-admits_numeric_example :
    admits_numeric integer (whole (pos (2 ^ 31)))
    ≡ leb_ℤ (numeric_rank (classify_integer (pos (2 ^ 31)))) (numeric_rank integer)
classify_integer-admits_numeric_example =
    classify_integer-admits_numeric (pos (2 ^ 31)) integer refl

-- 5 lies from 5 to 5.5.
eval_between_number-eval_leaf_number_example :
    eval_between_number true stored operand declared (some stored) ≡ (
      eval_leaf_number (op_of (from true)) stored declared (some stored)
      && eval_leaf_number (op_of (upto true)) operand declared (some stored))
eval_between_number-eval_leaf_number_example =
    eval_between_number-eval_leaf_number true stored operand stored declared
      (omega arith, omega arith) (omega arith, omega arith) (omega arith, omega arith)
      stored-admitted

read_stored : parse_decimal (codes "5") ≡ some stored
unfolding parse_decimal split_exponent read_mantissa sign_of split_point read_parts with_exponent
    read_exponent build wrap_int64 cut_at to_lower one_of ◌-ℤ◌
read_stored = refl

read_operand : parse_decimal (codes "5.50") ≡ some operand
unfolding parse_decimal split_exponent read_mantissa sign_of split_point read_parts with_exponent
    read_exponent build wrap_int64 cut_at to_lower one_of ◌-ℤ◌
read_operand = refl

eval_leaf_text-cmp_result_example :
    eval_leaf_text (op_of less) (codes "5.50") declared (codes "5")
    ≡ some (cmp_result (cmp stored operand) (op_of less))
eval_leaf_text-cmp_result_example =
    eval_leaf_text-cmp_result less (codes "5.50") (codes "5") operand stored declared read_operand
      read_stored stored-admitted
