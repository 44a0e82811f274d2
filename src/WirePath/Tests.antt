-- ===== src/WirePath/Tests.antt =====
-- Paths of requests.
use cyoda_go_spi.Base.{◌≡◌, ◌↔◌, refl, codes, ◌∷◌, ◌++◌, ok, err, List}
use cyoda_go_spi.Path.{
  PathHop, span_name, cut_bracket, is_array_index, parse_index, parse_path_sub, scan_subs,
  after_hop, hop_turn, scan_path_hops, parse_filter_path, render_subs, render_more,
  render_path_hops,
}
use cyoda_go_spi.Conditions.{json_path_leader, cut_leader}
use cyoda_go_spi.WirePath.{
  strip_dollar_dot, strip_body, contains_bracket_quote, contains_text, scan_wire_path_body,
  no_leader, no_field, bracket_quoted, normalise_path, trim_space, trim_left, trim_right, is_blank,
  space_size, with_leader, fold_subscript_wildcards, fold_body,
}
use cyoda_go_spi.WirePath.Strip.{strip_dollar_dot-Grammar}

strip_dollar_dot-Grammar_example :
    (strip_dollar_dot (codes "$.lines[*].price") ≡ ok (codes "lines[*].price")) ↔ (
      (codes "$.lines[*].price" ≡ json_path_leader ++ codes "lines[*].price")
      × ((h : PathHop) × (hops : List PathHop) × (parse_filter_path (codes "lines[*].price")
            ≡ ok (h ∷ hops))))
strip_dollar_dot-Grammar_example =
    strip_dollar_dot-Grammar (codes "$.lines[*].price") (codes "lines[*].price")

stripped : strip_dollar_dot (codes "$.a[0]") ≡ ok (codes "a[0]")
unfolding strip_dollar_dot strip_body cut_leader contains_bracket_quote contains_text
    scan_wire_path_body scan_path_hops hop_turn span_name scan_subs cut_bracket parse_path_sub
    parse_index is_array_index after_hop
stripped = refl

bare : strip_dollar_dot (codes "amount") ≡ err no_leader
unfolding strip_dollar_dot cut_leader
bare = refl

quoted : strip_dollar_dot (codes "$.a[\"b\"]") ≡ err bracket_quoted
unfolding strip_dollar_dot strip_body cut_leader contains_bracket_quote contains_text
quoted = refl

leader_only : strip_dollar_dot (codes "$.") ≡ err no_field
unfolding strip_dollar_dot strip_body cut_leader
leader_only = refl

normal : normalise_path (codes " amount ") ≡ codes "$.amount"
unfolding normalise_path trim_space trim_left trim_right is_blank space_size with_leader
normal = refl

folded : fold_subscript_wildcards (codes "$.items[2].sku") ≡ codes "$.items[*].sku"
unfolding fold_subscript_wildcards cut_leader fold_body contains_text parse_filter_path
    scan_path_hops hop_turn span_name scan_subs cut_bracket parse_path_sub parse_index
    is_array_index after_hop render_path_hops render_subs render_more
folded = refl
