-- ===== src/Numeric/Texts.antt =====
-- The leaf on texts: `expandCompare` reads the operand and `evalCompare` the stored number, both by
-- `ParseDecimal`. The field is declared with numeric types only, so an operand that is no number is
-- an error, which is `none`.
use cyoda_go_spi.Base.{
  ◌≡◌, refl, ap, ◌∙◌, arith, Bool, true, List, [], ◌∷◌, Option, none, some, Bytes,
}
use cyoda_go_spi.Types.{DataType}
use cyoda_go_spi.Operators.{FilterOp, cmp_result}
use cyoda_go_spi.Decimal.{Decimal, cmp}
use cyoda_go_spi.Decimal.Text.{parse_decimal}
use cyoda_go_spi.Decimal.Text.Scales.{parse_decimal-IsInt32}
use cyoda_go_spi.Numeric.{
  NumericSubCondition, numeric_declared, expand_compare_number, decide, eval_compare_number,
  eval_leaf_number,
}
use cyoda_go_spi.Numeric.Grid.{Comparison, op_of}
use cyoda_go_spi.Numeric.Search.{admitted, admitted-numeric_declared, eval_leaf_number-cmp_result}

-- An operand of a field engages if there is a numeric type and it is a number.
pub expand_operand :
    FilterOp → Option Decimal → List DataType → List DataType → Option (List NumericSubCondition)
expand_operand o operand declared [] = none
expand_operand o none declared (t ∷ ts) = none
expand_operand o (some v) declared (t ∷ ts) = some (expand_compare_number o v declared)

pub eval_expansion : FilterOp → Option (List NumericSubCondition) → Option Decimal → Option Bool
eval_expansion o none stored = none
eval_expansion o (some cs) stored = some (decide (eval_compare_number stored cs) o)

pub eval_leaf_text : FilterOp → Bytes → List DataType → Bytes → Option Bool
eval_leaf_text o operand declared stored =
    eval_expansion o (expand_operand o (parse_decimal operand) declared (numeric_declared declared))
      (parse_decimal stored)

-- The result of the leaf, once both texts are read.
read_texts :
    (c : Comparison) (v x : Decimal) (declared ts : List DataType)
    → admitted x ts ≡ true
    → eval_expansion (op_of c) (expand_operand (op_of c) (some v) declared ts) (some x)
      ≡ some (eval_leaf_number (op_of c) v declared (some x))
unfolding eval_expansion expand_operand eval_leaf_number
read_texts c v x declared [] a = absurd (ground (arith, a))
read_texts c v x declared (t ∷ ts) a = refl

-- Where both texts are numbers and some declared type admits the stored one, the leaf is evaluated
-- without an error, and for each of the six comparing operators it answers the comparison of the two
-- numbers that the texts denote.
pub eval_leaf_text-cmp_result :
    (c : Comparison) (operand stored : Bytes) (v x : Decimal) (declared : List DataType)
    → parse_decimal operand ≡ some v
    → parse_decimal stored ≡ some x
    → admitted x declared ≡ true
    → eval_leaf_text (op_of c) operand declared stored ≡ some (cmp_result (cmp x v) (op_of c))
unfolding eval_leaf_text
eval_leaf_text-cmp_result c operand stored v x declared h k a =
    rw (h, k)
      (read_texts c v x declared (numeric_declared declared)
          (admitted-numeric_declared x declared a)
        ∙ ap some (
            eval_leaf_number-cmp_result c v x declared (parse_decimal-IsInt32 operand v h)
              (parse_decimal-IsInt32 stored x k) a))
