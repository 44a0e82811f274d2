-- ===== src/Translate/Tests.antt =====
-- A condition and its filter.
use cyoda_go_spi.Base.{
  ◌≡◌, ◌↔◌, refl, none, some, codes, [], ◌∷◌, ok, err, arith, if◌then◌else◌, true,
}
use cyoda_go_spi.Types.{long, string}
use cyoda_go_spi.Base.Int.{pos}
use cyoda_go_spi.Path.{
  span_name, cut_bracket, is_array_index, parse_index, parse_path_sub, scan_subs, after_hop,
  hop_turn, scan_path_hops, parse_filter_path, render_subs, render_more, render_path_hops,
}
use cyoda_go_spi.Operators.{
  filter_and, filter_between, filter_not_null, lookup_operator, map_operator,
  group_operator_to_filter_op, same_bytes,
}
use cyoda_go_spi.Operand.{
  missing, int, array, end, ◌▷◌, validate_operand, operand_shape_of, check_array, check_bounds,
  count, is_range, is_presence,
}
use cyoda_go_spi.OrderClass.{
  source_data, source_meta, resolve_meta_field, is_temporal_meta_field, kind_index, classify_type,
  classify_types_fold, class_loop, scalar_class, merge_class, apply_fold,
}
use cyoda_go_spi.Conditions.{
  Condition, simple, lifecycle, group, function, nil, done, ◌⨾◌, desugar_condition, cut_leader,
}
use cyoda_go_spi.WirePath.{
  strip_dollar_dot, strip_body, contains_bracket_quote, contains_text, scan_wire_path_body,
  normalise_path, trim_space, trim_left, trim_right, is_blank, space_size, with_leader,
  fold_subscript_wildcards, fold_body,
}
use cyoda_go_spi.Translate.{
  Filter, filter, none_left, ◌◂◌, FieldsMap, coerce_none, no_leaf, condition_to_filter, filter_of,
  desugared_to_filter, simple_to_filter, lifecycle_to_filter, wire_path, operator_of,
  checked_operand, between_values, data_coercion, field_at, declared_at, canonical_field,
  group_operator_of, validate_condition_operators, validate_operators_at, not_translatable,
  bad_group_operator,
}
use cyoda_go_spi.Translate.Accepts.{Translatable, condition_to_filter-Translatable}
use cyoda_go_spi.Translate.Depth.{height, validate_condition_operators-condition_to_filter}

-- The field `$.lines[*]`, of long numbers.
abbrev lines_long : FieldsMap
lines_long = some λ key.
    if same_bytes key (codes "$.lines[*]")
    then some record { path = codes "$.lines[*]"; types = long ∷ []; is_array = true }
    else none

abbrev early_line : Condition
early_line = group (codes "AND") (
    simple (codes "$.lines[0]") (codes "BETWEEN") (array (int (pos 1) ▷ int (pos 5) ▷ end))
    ⨾ lifecycle (codes "previousTransition") (codes "NOT_NULL") missing
    ⨾ done)

abbrev early_line_filter : Filter
early_line_filter = filter (some filter_and) no_leaf (
    filter (some filter_between)
      record {
        path = codes "lines[0]";
        source = source_data;
        value = array (int (pos 1) ▷ int (pos 5) ▷ end);
        values = int (pos 1) ▷ int (pos 5) ▷ end;
        coercion = coerce_none;
        declared = long ∷ [];
      }
      none_left
    ◂ filter (some filter_not_null)
        record {
          path = codes "transitionForLatestSave";
          source = source_meta;
          value = missing;
          values = end;
          coercion = coerce_none;
          declared = string ∷ [];
        }
        none_left
    ◂ none_left)

translated : condition_to_filter early_line lines_long ≡ ok early_line_filter
unfolding condition_to_filter filter_of desugar_condition desugared_to_filter simple_to_filter
    lifecycle_to_filter wire_path operator_of checked_operand between_values data_coercion field_at
    declared_at canonical_field group_operator_of lookup_operator map_operator
    group_operator_to_filter_op validate_operand operand_shape_of check_array check_bounds count
    is_range is_presence resolve_meta_field is_temporal_meta_field kind_index classify_type
    classify_types_fold class_loop scalar_class merge_class apply_fold strip_dollar_dot strip_body
    cut_leader contains_bracket_quote contains_text scan_wire_path_body normalise_path trim_space
    trim_left trim_right is_blank space_size with_leader fold_subscript_wildcards fold_body
    parse_filter_path scan_path_hops hop_turn span_name scan_subs cut_bracket parse_path_sub
    parse_index is_array_index after_hop render_path_hops render_subs render_more
translated = refl

condition_to_filter-Translatable_example :
    ((f : Filter) × (condition_to_filter early_line lines_long ≡ ok f)) ↔ Translatable early_line
condition_to_filter-Translatable_example = condition_to_filter-Translatable lines_long early_line

validate_condition_operators-condition_to_filter_example :
    validate_condition_operators early_line ≡ none
unfolding height
validate_condition_operators-condition_to_filter_example =
    validate_condition_operators-condition_to_filter early_line lines_long early_line_filter
      (omega arith) translated

callout :
    condition_to_filter (group (codes "OR") (function [] nil ⨾ done)) none ≡ err not_translatable
unfolding condition_to_filter filter_of desugar_condition desugared_to_filter group_operator_of
    group_operator_to_filter_op
callout = refl

lower_case :
    validate_condition_operators (group (codes "and") done)
    ≡ some (bad_group_operator (codes "and"))
unfolding validate_condition_operators validate_operators_at group_operator_to_filter_op
lower_case = refl
