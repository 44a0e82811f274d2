-- ===== src/Prepared/Tests.antt =====
-- A prepared filter over documents that are texts.
use cyoda_go_spi.Base.{◌≡◌, refl, none, Bytes, some, codes, [], ◌∷◌, ok, err, true}
use cyoda_go_spi.Base.Int.{pos, negsuc}
use cyoda_go_spi.Path.{
  span_name, cut_bracket, is_array_index, parse_index, parse_path_sub, scan_subs, after_hop,
  hop_turn, scan_path_hops, parse_filter_path, render_subs, render_more, render_path_hops,
}
use cyoda_go_spi.Operators.{
  filter_not, filter_eq, leaf_kind_of, filter_not_null, lookup_operator, map_operator,
  group_operator_to_filter_op, same_bytes,
}
use cyoda_go_spi.Operand.{
  text, end, validate_operand, operand_shape_of, check_array, check_bounds, count, is_range,
  is_presence, operand_string, values_to_strings,
}
use cyoda_go_spi.OrderClass.{
  no_source, source_data, resolve_meta_field, is_temporal_meta_field, kind_index, classify_type,
  classify_types_fold, class_loop, scalar_class, merge_class, apply_fold,
}
use cyoda_go_spi.Conditions.{Condition, simple, group, done, ◌⨾◌, desugar_condition, cut_leader}
use cyoda_go_spi.WirePath.{
  strip_dollar_dot, strip_body, contains_bracket_quote, contains_text, scan_wire_path_body,
  normalise_path, trim_space, trim_left, trim_right, is_blank, space_size, with_leader,
  fold_subscript_wildcards, fold_body,
}
use cyoda_go_spi.Translate.{
  Filter, filter, none_left, ◌◂◌, coerce_none, no_leaf, condition_to_filter, filter_of,
  desugared_to_filter, simple_to_filter, lifecycle_to_filter, wire_path, operator_of,
  checked_operand, between_values, data_coercion, field_at, declared_at, canonical_field,
  group_operator_of,
}
use cyoda_go_spi.Entities.{EntityMeta}
use cyoda_go_spi.Conditions.Meaning.{holds}
use cyoda_go_spi.Prepared.Metadata.{time_to_micro, zero_time, meta_value, extract_filter_meta_value}
use cyoda_go_spi.Prepared.Kernels.{Kernel}
use cyoda_go_spi.Prepared.{
  PreparedFilter, not_node, leaf_node, prepare, prepare_node, prepare_leaf, check_leaf_operator,
  leaf_hops, check_operand, leaf_operand, with_pattern, needs_pattern, match_filter, match,
  stored_all, not_arity,
}
use cyoda_go_spi.Prepared.Late.{OnlyLate}
use cyoda_go_spi.Prepared.Sound.{prepare-condition_to_filter}
use cyoda_go_spi.Prepared.Meaning.{simple_answer, lifecycle_answer, match_filter-holds}

-- Every path addresses the document itself, and a leaf asks whether it is the operand.
abbrev whole : Kernel
whole = record {
  Expansion = Bytes;
  expand_leaf = λ op operand values declared. some operand;
  has_pattern = λ e. true;
  Stored = Bytes;
  resolve_path = λ doc hops. doc ∷ [];
  json_of_meta = λ v. [];
  eval_leaf = λ e stored. same_bytes e stored;
}

abbrev not_red : Condition
not_red =
    group (codes "NOT") (simple (codes "$.colour") (codes "EQUALS") (text (codes "red")) ⨾ done)

abbrev not_red_filter : Filter
not_red_filter = filter (some filter_not) no_leaf (
    filter (some filter_eq)
      record {
        path = codes "colour";
        source = source_data;
        value = text (codes "red");
        values = end;
        coercion = coerce_none;
        declared = [];
      }
      none_left
    ◂ none_left)

not_red_translated : condition_to_filter not_red none ≡ ok not_red_filter
unfolding condition_to_filter filter_of desugar_condition desugared_to_filter simple_to_filter
    lifecycle_to_filter wire_path operator_of checked_operand between_values data_coercion field_at
    declared_at canonical_field group_operator_of lookup_operator map_operator
    group_operator_to_filter_op validate_operand operand_shape_of check_array check_bounds count
    is_range is_presence resolve_meta_field is_temporal_meta_field kind_index classify_type
    classify_types_fold class_loop scalar_class merge_class apply_fold strip_dollar_dot strip_body
    cut_leader contains_bracket_quote contains_text scan_wire_path_body normalise_path trim_space
    trim_left trim_right is_blank space_size with_leader fold_subscript_wildcards fold_body
    parse_filter_path scan_path_hops hop_turn span_name scan_subs cut_bracket parse_path_sub
    parse_index is_array_index after_hop render_path_hops render_subs render_more
not_red_translated = refl

abbrev not_red_prepared : PreparedFilter whole
not_red_prepared = some (
    not_node (
      leaf_node filter_eq source_data (codes "colour")
        (record { name = codes "colour"; subs = [] } ∷ []) (codes "red")))

not_red_ready : prepare whole not_red_filter ≡ ok not_red_prepared
unfolding prepare prepare_node prepare_leaf check_leaf_operator leaf_kind_of leaf_hops check_operand
    leaf_operand with_pattern needs_pattern validate_operand operand_shape_of is_range
    operand_string values_to_strings parse_filter_path scan_path_hops hop_turn span_name scan_subs
    after_hop
not_red_ready = refl

abbrev some_meta : EntityMeta
some_meta = record {
  id = codes "1";
  tenant_id = codes "t";
  model_ref = record { entity_name = codes "car"; model_version = codes "1" };
  state = codes "NEW";
  version = pos 1;
  creation_date = zero_time;
  last_modified_date = pos 5000;
  transaction_id = [];
  change_type = [];
  change_user = [];
  change_user_kind = [];
  change_executor = record { id = []; kind = [] };
  transition_for_latest_save = [];
}

match_filter-holds_example :
    match_filter whole not_red_prepared (codes "blue") some_meta
    ≡ holds
        (simple_answer whole none (codes "blue") some_meta)
        (lifecycle_answer whole none (codes "blue") some_meta)
        not_red
match_filter-holds_example =
    match_filter-holds whole none (codes "blue") some_meta not_red not_red_filter not_red_prepared
      not_red_translated not_red_ready

matched : match_filter whole not_red_prepared (codes "blue") some_meta ≡ true
unfolding match_filter match stored_all
matched = refl

prepare-condition_to_filter_example : OnlyLate (prepare whole not_red_filter)
prepare-condition_to_filter_example =
    prepare-condition_to_filter whole not_red none not_red_filter not_red_translated

no_member : prepare whole (filter (some filter_not) no_leaf none_left) ≡ err not_arity
unfolding prepare prepare_node
no_member = refl

unset_time : meta_value (codes "creationDate") some_meta ≡ none
unfolding meta_value extract_filter_meta_value
unset_time = refl

micros : time_to_micro (negsuc 1500) ≡ negsuc 1
unfolding time_to_micro
micros = refl

-- A leaf without a source is not asked for a path: it is prepared and addresses the whole document.
no_source_accepted :
    prepare whole (filter (some filter_not_null) no_leaf none_left)
    ≡ ok (some (leaf_node filter_not_null no_source [] [] []))
unfolding prepare prepare_node prepare_leaf check_leaf_operator leaf_kind_of leaf_hops check_operand
    leaf_operand with_pattern needs_pattern validate_operand operand_shape_of is_range is_presence
    operand_string values_to_strings
no_source_accepted = refl
