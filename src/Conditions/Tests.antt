-- ===== src/Conditions/Tests.antt =====
-- An array clause in a group, desugared.
use cyoda_go_spi.Base.{
  ◌≡◌, refl, codes, [], ◌∷◌, ◌++◌, true, false, ok, err, Bytes, Bool, inl, arith,
}
use cyoda_go_spi.Base.Digits.{print}
use cyoda_go_spi.Operators.{same_bytes}
use cyoda_go_spi.Operand.{Operand, missing, text, end, ◌▷◌}
use cyoda_go_spi.Path.{
  wildcard, index, span_name, cut_bracket, parse_path_sub, scan_subs, after_hop, hop_turn,
  scan_path_hops, parse_filter_path, render_subs, render_more, render_path_hops,
}
use cyoda_go_spi.Conditions.{
  Condition, simple, lifecycle, group, array_clause, done, ◌⨾◌, desugar_condition,
  desugar_array_condition, clause_of, element_leaves, desugar_array_element_path,
  parsed_element_path, cut_leader, set_last, set_last_sub, json_path_leader, tests_nothing,
  subscript_text, ends_in_wildcard,
}
use cyoda_go_spi.Conditions.Meaning.{holds}
use cyoda_go_spi.Conditions.Elements.{parse-desugar_array_element_path}
use cyoda_go_spi.Conditions.Desugar.{desugar_condition-holds}
use cyoda_go_spi.Conditions.Settled.{lacks_arrays, desugar_condition-Settled}

abbrev red_blue : Condition
red_blue = group (codes "OR") (
    array_clause (codes "$.tags[*]") (codes "EQUALS")
      (text (codes "red") ▷ missing ▷ text (codes "blue") ▷ end)
    ⨾ lifecycle (codes "state") (codes "EQUALS") (text (codes "NEW"))
    ⨾ done)

abbrev desugared : Condition
desugared = group (codes "OR") (
    group (codes "AND") (
      simple (codes "$.tags[0]") (codes "EQUALS") (text (codes "red"))
      ⨾ simple (codes "$.tags[2]") (codes "EQUALS") (text (codes "blue"))
      ⨾ done)
    ⨾ lifecycle (codes "state") (codes "EQUALS") (text (codes "NEW"))
    ⨾ done)

red_blue-desugared : desugar_condition red_blue ≡ ok desugared
unfolding desugar_condition desugar_array_condition clause_of element_leaves
    desugar_array_element_path parsed_element_path cut_leader set_last set_last_sub
    parse_filter_path scan_path_hops hop_turn span_name scan_subs cut_bracket parse_path_sub
    after_hop render_path_hops render_subs render_more print
red_blue-desugared = refl

-- Says yes to the third position only.
abbrev at_two : Bytes → Bytes → Operand → Bool
at_two p op v = same_bytes p (codes "$.tags[2]")

abbrev never : Bytes → Bytes → Operand → Bool
never p op v = false

desugar_condition-holds_example : holds at_two never desugared ≡ holds at_two never red_blue
desugar_condition-holds_example =
    desugar_condition-holds at_two never red_blue desugared red_blue-desugared

desugar_condition-Settled_example :
    (lacks_arrays desugared ≡ true) × (desugar_condition desugared ≡ ok desugared)
desugar_condition-Settled_example = desugar_condition-Settled red_blue desugared red_blue-desugared

nothing_tested :
    desugar_condition
      (group (codes "NOT") (array_clause (codes "$.a[*]") (codes "LIKE") (missing ▷ end) ⨾ done))
    ≡ err (tests_nothing (codes "$.a[*]"))
unfolding desugar_condition desugar_array_condition clause_of element_leaves
nothing_tested = refl

-- A path that does not parse is continued as a text.
textual : desugar_array_element_path (codes "a b[*]") 4 ≡ codes "a b[4]"
unfolding desugar_array_element_path cut_leader subscript_text ends_in_wildcard print
textual = refl

parse-desugar_array_element_path_example :
    (body : Bytes) × (desugar_array_element_path (json_path_leader ++ codes "m[*][*]") 7
      ≡ json_path_leader ++ body)
    × (parse_filter_path body
        ≡ ok (record { name = codes "m"; subs = wildcard ∷ index 7 ∷ [] } ∷ []))
unfolding parse_filter_path scan_path_hops hop_turn span_name scan_subs cut_bracket parse_path_sub
    after_hop
parse-desugar_array_element_path_example =
    parse-desugar_array_element_path (codes "m[*][*]") [] (codes "m") (wildcard ∷ wildcard ∷ [])
      (wildcard ∷ []) 7 refl (inl refl) (omega arith)
