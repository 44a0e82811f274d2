-- ===== src/Operand.antt =====
-- operand.go, and of filter_match.go `OperandString` and `valuesToStrings`: the operand of a leaf.
-- A Go value of type `any` is one of the constructors of `Operand`, told apart as
-- `operandShapeOf` tells them apart. A refusal is a constructor for each error value of errors.go.
pub mod Valid
mod Tests
use cyoda_go_spi.Base.{
  ℕ, suc, Bool, true, false, ◌||◌, ◌==◌, List, [], ◌∷◌, ◌++◌, Option, none, some, Bytes, codes,
  if◌then◌else◌,
}
use cyoda_go_spi.Base.Int.{ℤ, pos, negsuc, pos_part, neg_part}
use cyoda_go_spi.Base.Digits.{print}
use cyoda_go_spi.Operators.{
  FilterOp, filter_is_null, filter_not_null, filter_between, filter_between_inclusive,
}

-- `missing` is nil; `int` is a value of any of the ten integer types; `float` carries the text that
-- `fmt.Sprint` prints for it, and so do `object` (an unnamed map type), `typed_array` (an unnamed
-- slice or array type other than []any) and `other`.
mutual
  pub data Operand : Type 0 where
    missing : Operand
    text : Bytes → Operand
    truth : Bool → Operand
    json_number : Bytes → Operand
    int : ℤ → Operand
    float : Bytes → Operand
    object : Bytes → Operand
    array : Operands → Operand
    typed_array : Bytes → Operand
    other : Bytes → Operand

  -- `[]any`
  pub data Operands : Type 0 where
    end : Operands
    ◌▷◌ : Operand → Operands → Operands

infixr 35 ◌▷◌
pub data OperandShape : Type 0 where
  shape_scalar shape_missing shape_object shape_array shape_other : OperandShape

unfoldable pub operand_shape_of : Operand → OperandShape
operand_shape_of missing = shape_missing
operand_shape_of (object _) = shape_object
operand_shape_of (array _) = shape_array
operand_shape_of (typed_array _) = shape_array
operand_shape_of (other _) = shape_other
operand_shape_of (text _) = shape_scalar
operand_shape_of (truth _) = shape_scalar
operand_shape_of (json_number _) = shape_scalar
operand_shape_of (int _) = shape_scalar
operand_shape_of (float _) = shape_scalar

-- The values that wrap `ErrInvalidOperand`; a count is the number of bounds.
pub data OperandError : Type 0 where
  operand_missing operand_object operand_array operand_not_scalar : OperandError
  between_not_array between_null_bound between_non_scalar_bound : OperandError
  between_count : ℕ → OperandError

unfoldable pub is_range : FilterOp → Bool
is_range filter_between = true
is_range filter_between_inclusive = true
is_range _ = false

-- `op == FilterIsNull || op == FilterNotNull`
unfoldable pub is_presence : FilterOp → Bool
is_presence filter_is_null = true
is_presence filter_not_null = true
is_presence _ = false

-- `len` of a []any.
unfoldable pub count : Operands → ℕ
count end = 0
count (_ ▷ vs) = suc (count vs)

-- The loop over the bounds of a range.
unfoldable pub check_bounds : Operands → Option OperandError
unfolding operand_shape_of
check_bounds end = none
check_bounds (b ▷ bs) = elim (operand_shape_of b) [
  | shape_scalar ↦ check_bounds bs
  | shape_missing ↦ some between_null_bound
  | _ ↦ some between_non_scalar_bound
]

-- The case of an array.
unfoldable pub check_array : Bool → Operand → Option OperandError
unfolding count check_bounds
check_array false _ = some operand_array
check_array true (array pair) =
    if count pair == 2 then check_bounds pair else some (between_count (count pair))
check_array true _ = some between_not_array

unfoldable pub validate_operand : FilterOp → Operand → Option OperandError
unfolding operand_shape_of check_array is_range is_presence
validate_operand op value = elim (operand_shape_of value) [
  | shape_missing ↦ if is_presence op then none else some operand_missing
  | shape_object ↦ some operand_object
  | shape_other ↦ some operand_not_scalar
  | shape_array ↦ check_array (is_range op) value
  | shape_scalar ↦ if is_range op then some between_not_array else none
]

unfoldable pub print_bool : Bool → Bytes
print_bool true = codes "true"
print_bool false = codes "false"

-- `%d`
unfoldable pub print_int : ℤ → Bytes
print_int (pos n) = print n
print_int (negsuc n) = b'-' ∷ print (neg_part (negsuc n))

-- `fmt.Sprint`: an element of an array stands behind a space, except the first.
unfoldable mutual
  pub sprint : Operand → Bytes
  sprint missing = codes "<nil>"
  sprint (text s) = s
  sprint (truth b) = print_bool b
  sprint (json_number s) = s
  sprint (int i) = print_int i
  sprint (float s) = s
  sprint (object s) = s
  sprint (typed_array s) = s
  sprint (other s) = s
  sprint (array end) = codes "[]"
  sprint (array (v ▷ vs)) = b'[' ∷ sprint v ++ sprint_rest vs

  pub sprint_rest : Operands → Bytes
  sprint_rest end = b']' ∷ []
  sprint_rest (v ▷ vs) = b' ' ∷ sprint v ++ sprint_rest vs

unfoldable pub operand_string : Operand → Bytes
unfolding sprint
operand_string missing = []
operand_string (text s) = s
operand_string (truth b) = print_bool b
operand_string (json_number s) = s
operand_string v = sprint v

unfoldable pub values_to_strings : Operands → List Bytes
unfolding operand_string
values_to_strings end = []
values_to_strings (v ▷ vs) = operand_string v ∷ values_to_strings vs
