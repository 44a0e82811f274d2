-- ===== src/Translate.antt =====
-- filter.go: `Filter`; field_descriptor.go; condition_filter.go: `ConditionToFilter` with the
-- functions that it calls, and `ValidateConditionOperators`. An error is a constructor with what it
-- wraps; a field's descriptor is looked up in the caller's map, and a nil map is `none`.
pub mod Steps
pub mod HasFilter
pub mod Accepts
pub mod Depth
mod Tests
use cyoda_go_spi.Base.{
  ℕ, zero, suc, Bool, true, false, List, [], ◌∷◌, Option, none, some, Bytes, codes, leb, ◌==◌,
  if◌then◌else◌, Result, ok, err, ◌>>=◌, require, wrap,
}
use cyoda_go_spi.Types.{DataType, string, zoned_date_time}
use cyoda_go_spi.Operators.{FilterOp, same_bytes, lookup_operator, group_operator_to_filter_op}
use cyoda_go_spi.Operand.{
  Operand, missing, array, Operands, end, OperandError, is_range, validate_operand,
}
use cyoda_go_spi.OrderClass.{
  FieldSource, no_source, source_data, source_meta, OrderKind, kind_index, order_temporal,
  classify_type, is_temporal_meta_field,
}
use cyoda_go_spi.Conditions.{
  Condition, Conditions, simple, lifecycle, group, array_clause, function, nil, foreign, done, ◌⨾◌,
  DesugarError, tests_nothing, desugar_condition, desugar_array_condition,
}
use cyoda_go_spi.WirePath.{WireError, strip_dollar_dot, normalise_path, fold_subscript_wildcards}

pub data FilterCoercion : Type 0 where
  coerce_none coerce_temporal : FilterCoercion

-- The fields of `Filter` that a leaf sets, with their zero values in `no_leaf`.
pub record Leaf : Type 0 where
  pub path : Bytes
  pub source : FieldSource
  pub value : Operand
  pub values : Operands
  pub coercion : FilterCoercion
  pub declared : List DataType

abbrev pub no_leaf : Leaf
no_leaf = record {
  path = [];
  source = no_source;
  value = missing;
  values = end;
  coercion = coerce_none;
  declared = [];
}

-- The operator, the leaf fields and the children; the zero operator is `none`.
mutual
  pub data Filter : Type 0 where
    filter : Option FilterOp → Leaf → Filters → Filter

  -- `[]Filter`
  pub data Filters : Type 0 where
    none_left : Filters
    ◌◂◌ : Filter → Filters → Filters

infixr 35 ◌◂◌
pub record FieldDescriptor : Type 0 where
  pub path : Bytes
  pub types : List DataType
  pub is_array : Bool

abbrev pub FieldsMap : Type 0
FieldsMap = Option (Bytes → Option FieldDescriptor)

-- What the errors wrap; `bounds_no_array` is the panic of the assertion `value.([]any)`.
pub data TranslateError : Type 0 where
  nil_condition not_translatable unsupported_condition : TranslateError
  desugar_error : DesugarError → TranslateError
  invalid_path : WireError → TranslateError
  unknown_operator unknown_group_operator : Bytes → TranslateError
  invalid_operand : OperandError → TranslateError
  bounds_no_array : TranslateError

unfoldable pub between_values : FilterOp → Operand → Result TranslateError Operands
between_values op value =
    if is_range op then elim value [ array vs ↦ ok vs | _ ↦ err bounds_no_array ] else ok end

-- A nil map and a missing key read alike.
unfoldable pub field_at : FieldsMap → Bytes → Option FieldDescriptor
field_at none key = none
field_at (some fields) key = fields key

unfoldable pub data_coercion : Bytes → FieldsMap → FilterCoercion
unfolding field_at kind_index
data_coercion key fields = elim (field_at fields key) [
  | none ↦ coerce_none
  | some fd ↦ elim (classify_type fd.types) [
    | err e ↦ coerce_none
    | ok kind ↦
        if kind_index kind == kind_index order_temporal then coerce_temporal else coerce_none
  ]
]

-- `fields[key].Types`
unfoldable pub declared_at : FieldsMap → Bytes → List DataType
unfolding field_at
declared_at fields key = elim (field_at fields key) [ none ↦ [] | some fd ↦ fd.types ]

-- `LookupOperator`, and `unknownOperatorError` where it finds nothing.
unfoldable pub operator_of : Bytes → Result TranslateError FilterOp
operator_of name = require (unknown_operator name) (lookup_operator name)

-- `ValidateOperand`, and the error that wraps its refusal.
unfoldable pub checked_operand : FilterOp → Operand → Result TranslateError Operand
checked_operand op value = elim (validate_operand op value) [
  | some e ↦ err (invalid_operand e)
  | none ↦ ok value
]

unfoldable pub wire_path : Bytes → Result TranslateError Bytes
wire_path p = wrap invalid_path (strip_dollar_dot p)

-- The filter that `simpleToFilter` returns.
abbrev pub simple_leaf : Bytes → Bytes → FieldsMap → FilterOp → Operand → Operands → Filter
simple_leaf json_path stripped fields op v vs =
    let key : Bytes = fold_subscript_wildcards (normalise_path json_path) in
    filter (some op)
      record {
        path = stripped;
        source = source_data;
        value = v;
        values = vs;
        coercion = data_coercion key fields;
        declared = declared_at fields key;
      }
      none_left

unfoldable pub simple_to_filter : Bytes → Bytes → Operand → FieldsMap → Result TranslateError Filter
unfolding wire_path operator_of checked_operand between_values
simple_to_filter json_path operator_type value fields = do
  stripped ← wire_path json_path
  op ← operator_of operator_type
  v ← checked_operand op value
  vs ← between_values op v
  ok (simple_leaf json_path stripped fields op v vs)

unfoldable pub canonical_field : Bytes → Bytes
canonical_field field =
    if same_bytes field (codes "previousTransition") then codes "transitionForLatestSave" else field

-- The filter that `lifecycleToFilter` returns for a canonical field.
abbrev pub lifecycle_leaf : Bytes → FilterOp → Operand → Operands → Filter
lifecycle_leaf field op v vs =
    let temporal : Bool = is_temporal_meta_field field in
    filter (some op)
      record {
        path = field;
        source = source_meta;
        value = v;
        values = vs;
        coercion = if temporal then coerce_temporal else coerce_none;
        declared = if temporal then zoned_date_time ∷ [] else string ∷ [];
      }
      none_left

unfoldable pub lifecycle_to_filter : Bytes → Bytes → Operand → Result TranslateError Filter
unfolding operator_of checked_operand between_values canonical_field
lifecycle_to_filter field operator_type value = do
  op ← operator_of operator_type
  v ← checked_operand op value
  vs ← between_values op v
  ok (lifecycle_leaf (canonical_field field) op v vs)

-- The check of a group's operator.
unfoldable pub group_operator_of : Bytes → Result TranslateError FilterOp
group_operator_of operator =
    require (unknown_group_operator operator) (group_operator_to_filter_op operator)

unfoldable mutual
  unfolding group_operator_of

  pub desugared_to_filter : Condition → FieldsMap → Result TranslateError Filter
  desugared_to_filter (simple p op v) fields = simple_to_filter p op v fields
  desugared_to_filter (lifecycle f op v) fields = lifecycle_to_filter f op v
  desugared_to_filter (group operator cs) fields = group_operator_of operator >>= λ op.
      children_to_filters cs fields >>= λ fs. ok (filter (some op) no_leaf fs)
  desugared_to_filter (function raw c) fields = err not_translatable
  desugared_to_filter (array_clause p op vs) fields = err unsupported_condition
  desugared_to_filter nil fields = err unsupported_condition
  desugared_to_filter foreign fields = err unsupported_condition

  -- The loop of `groupToFilter` over the children.
  pub children_to_filters : Conditions → FieldsMap → Result TranslateError Filters
  children_to_filters done fields = ok none_left
  children_to_filters (c ⨾ cs) fields =
      desugared_to_filter c fields >>= λ f. children_to_filters cs fields >>= λ fs. ok (f ◂ fs)

-- `desugared` is the result of `DesugarCondition`.
unfoldable pub filter_of : Result DesugarError Condition → FieldsMap → Result TranslateError Filter
unfolding desugared_to_filter
filter_of (err e) fields = err (desugar_error e)
filter_of (ok d) fields = desugared_to_filter d fields

unfoldable pub condition_to_filter : Condition → FieldsMap → Result TranslateError Filter
unfolding filter_of
condition_to_filter nil fields = err nil_condition
condition_to_filter c fields = filter_of (desugar_condition c) fields

abbrev pub max_condition_depth : ℕ
max_condition_depth = 256

pub data CheckError : Type 0 where
  depth_exceeded : CheckError
  bad_operator bad_group_operator : Bytes → CheckError
  bad_clause : DesugarError → CheckError

unfoldable pub check_operator : Bytes → Option CheckError
check_operator op = elim (lookup_operator op) [ none ↦ some (bad_operator op) | some f ↦ none ]

-- The loop over the children, each checked by `check`.
unfoldable pub check_children : (Condition → Option CheckError) → Conditions → Option CheckError
check_children check done = none
check_children check (c ⨾ cs) = elim (check c) [ some e ↦ some e | none ↦ check_children check cs ]

-- `validateOperatorsAtDepth`: the first argument is `MaxConditionDepth - depth`.
unfoldable pub validate_operators_at : ℕ → Condition → Option CheckError
unfolding check_operator check_children
validate_operators_at left nil = none
validate_operators_at zero c = some depth_exceeded
validate_operators_at (suc left) (simple p op v) = check_operator op
validate_operators_at (suc left) (lifecycle f op v) = check_operator op
validate_operators_at (suc left) (group operator cs) = elim (group_operator_to_filter_op operator) [
  | none ↦ some (bad_group_operator operator)
  | some op ↦ check_children (validate_operators_at left) cs
]
validate_operators_at (suc left) (array_clause p op vs) = elim (desugar_array_condition p op vs) [
  | err e ↦ some (bad_clause e)
  | ok d ↦ validate_operators_at left d
]
validate_operators_at (suc left) (function raw c) = none
validate_operators_at (suc left) foreign = none

unfoldable pub validate_condition_operators : Condition → Option CheckError
unfolding validate_operators_at
validate_condition_operators c = validate_operators_at max_condition_depth c
