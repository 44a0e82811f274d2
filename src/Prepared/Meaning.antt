-- ===== src/Prepared/Meaning.antt =====
-- What a translated and prepared filter answers is what its condition says.
use cyoda_go_spi.Base.{
  ◌≡◌, refl, sym, ap, ap₂, ◌∙◌, subst, Bool, false, ◌&&◌, ◌||◌, List, [], ◌∷◌, none, some, Bytes,
  Result, ok, err, require-ok, bind-ok, ok-injective, all_of, any_of,
}
use cyoda_go_spi.Entities.{EntityMeta}
use cyoda_go_spi.Operators.{FilterOp, filter_not, group_operator_to_filter_op}
use cyoda_go_spi.Operand.{Operand}
use cyoda_go_spi.Conditions.{
  Condition, Conditions, simple, lifecycle, group, array_clause, function, nil, foreign, done, ◌⨾◌,
}
use cyoda_go_spi.Conditions.Meaning.{combine, holds, each_holds}
use cyoda_go_spi.Conditions.Desugar.{desugar_condition-holds}
use cyoda_go_spi.Translate.{
  TranslateError, Filter, filter, Filters, none_left, ◌◂◌, FieldsMap, simple_to_filter,
  lifecycle_to_filter, desugared_to_filter, children_to_filters, condition_to_filter,
  group_operator_of, unknown_group_operator, no_leaf, wire_path, simple_leaf, lifecycle_leaf,
  canonical_field,
}
use cyoda_go_spi.Translate.Steps.{steps-Built}
use cyoda_go_spi.Translate.HasFilter.{desugared_from}
use cyoda_go_spi.Prepared.Kernels.{Kernel}
use cyoda_go_spi.Prepared.{
  PrepareError, prepare_node, prepare_nodes, prepare, match, match_all, match_some, match_filter,
  PreparedFilter, PreparedNode, PreparedNodes, no_nodes, node_more, and_node, or_node, not_node,
}
use cyoda_go_spi.Prepared.Sound.{IsTree, tree_and, tree_or, tree_not, group-IsTree}

-- The operator of a filter is not the zero value.
abbrev HasOperator : Filter → Type 0
HasOperator (filter none l fs) = ⊥
HasOperator (filter (some op) l fs) = Unit

translated-HasOperator :
    (c : Condition) (fields : FieldsMap) (f : Filter)
    → desugared_to_filter c fields ≡ ok f
    → HasOperator f
unfolding desugared_to_filter simple_to_filter lifecycle_to_filter
translated-HasOperator (simple p name v) fields f h =
    let (s, e, k) = bind-ok (wire_path p) _ f h in
    let (op, vs, l, fits, b, q) = steps-Built name v (simple_leaf p s fields) f k in
    subst HasOperator q tt
translated-HasOperator (lifecycle g name v) fields f h =
    let (op, vs, l, fits, b, q) = steps-Built name v (lifecycle_leaf (canonical_field g)) f h in
    subst HasOperator q tt
translated-HasOperator (group name cs) fields f h =
    let (op, e, k) = bind-ok (group_operator_of name) _ f h in
    let (fs, e', q) = bind-ok (children_to_filters cs fields) _ f k in
    subst HasOperator (ok-injective (filter (some op) no_leaf fs) f q) tt
translated-HasOperator (array_clause p op vs) fields f h = cc h
translated-HasOperator (function raw c) fields f h = cc h
translated-HasOperator nil fields f h = cc h
translated-HasOperator foreign fields f h = cc h

module _ (K : Kernel) (fields : FieldsMap) (doc : Bytes) (meta : EntityMeta) where
  abbrev pub node_answer : Result PrepareError (PreparedNode K) → Bool
  node_answer (err e) = false
  node_answer (ok n) = match K n doc meta

  -- The answer of a filter on its own.
  abbrev pub answer : Result TranslateError Filter → Bool
  answer (err e) = false
  answer (ok f) = node_answer (prepare_node K f)

  abbrev pub simple_answer : Bytes → Bytes → Operand → Bool
  simple_answer p op v = answer (simple_to_filter p op v fields)

  abbrev pub lifecycle_answer : Bytes → Bytes → Operand → Bool
  lifecycle_answer g op v = answer (lifecycle_to_filter g op v)

  -- The answers of a list of nodes.
  each_match : PreparedNodes K → List Bool
  each_match no_nodes = []
  each_match (node_more n ns) = match K n doc meta ∷ each_match ns

  match_all-all_of :
      (ns : PreparedNodes K) → match_all K ns doc meta ≡ all_of (λ b. b) (each_match ns)
  unfolding match each_match
  match_all-all_of no_nodes = refl
  match_all-all_of (node_more n ns) = ap (λ b. match K n doc meta && b) (match_all-all_of ns)

  match_some-any_of :
      (ns : PreparedNodes K) → match_some K ns doc meta ≡ any_of (λ b. b) (each_match ns)
  unfolding match each_match
  match_some-any_of no_nodes = refl
  match_some-any_of (node_more n ns) = ap (λ b. match K n doc meta || b) (match_some-any_of ns)

  abbrev each_says : Conditions → List Bool
  each_says cs = each_holds simple_answer lifecycle_answer cs

  abbrev says : Condition → Bool
  says c = holds simple_answer lifecycle_answer c

  one_node :
      (f : Filter) (m : PreparedNode K)
      → prepare_node K f ≡ ok m
      → prepare_nodes K (f ◂ none_left) ≡ ok (node_more m no_nodes)
  unfolding prepare_node
  one_node f m e = rw (e, prepare_nodes)

  -- A group's node answers what the group's operator makes of its children's answers.
  tree-combine :
      (op : FilterOp) (fs : Filters) (ns : PreparedNodes K) (n : PreparedNode K)
      → IsTree op
      → prepare_nodes K fs ≡ ok ns
      → prepare_node K (filter (some op) no_leaf fs) ≡ ok n
      → match K n doc meta ≡ combine (some op) (each_match ns)
  unfolding prepare_node match
  tree-combine op fs ns n tree_and e h =
      let (ms, e', q) = bind-ok (prepare_nodes K fs) _ n h in
      subst (λ n. match K n doc meta ≡ all_of (λ b. b) (each_match ns))
        (ok-injective (and_node ms) n q)
        (subst (λ ms. match_all K ms doc meta ≡ all_of (λ b. b) (each_match ns))
          (ok-injective ns ms (sym e ∙ e')) (match_all-all_of ns))
  tree-combine op fs ns n tree_or e h =
      let (ms, e', q) = bind-ok (prepare_nodes K fs) _ n h in
      subst (λ n. match K n doc meta ≡ any_of (λ b. b) (each_match ns))
        (ok-injective (or_node ms) n q)
        (subst (λ ms. match_some K ms doc meta ≡ any_of (λ b. b) (each_match ns))
          (ok-injective ns ms (sym e ∙ e')) (match_some-any_of ns))
  tree-combine op none_left ns n tree_not e h = cc h
  tree-combine op (f ◂ g ◂ fs) ns n tree_not e h = cc h
  tree-combine op (f ◂ none_left) ns n tree_not e h =
      let (m, e', q) = bind-ok (prepare_node K f) _ n h in
      subst (λ n. match K n doc meta ≡ combine (some filter_not) (each_match ns))
        (ok-injective (not_node m) n q)
        (subst (λ ns. match K (not_node m) doc meta ≡ combine (some filter_not) (each_match ns))
          (ok-injective (node_more m no_nodes) ns (sym (one_node f m e') ∙ e))
          (unfold each_match in refl))

  tree-nodes :
      (op : FilterOp) (fs : Filters) (n : PreparedNode K)
      → IsTree op
      → prepare_node K (filter (some op) no_leaf fs) ≡ ok n
      → (ns : PreparedNodes K) × (prepare_nodes K fs ≡ ok ns)
  unfolding prepare_node
  tree-nodes op fs n tree_and h = let (ns, e, _) = bind-ok (prepare_nodes K fs) _ n h in (ns, e)
  tree-nodes op fs n tree_or h = let (ns, e, _) = bind-ok (prepare_nodes K fs) _ n h in (ns, e)
  tree-nodes op none_left n tree_not h = cc h
  tree-nodes op (f ◂ g ◂ fs) n tree_not h = cc h
  tree-nodes op (f ◂ none_left) n tree_not h =
      let (m, e, _) = bind-ok (prepare_node K f) _ n h in (node_more m no_nodes, one_node f m e)

  leaf-says :
      (r : Result TranslateError Filter) (f : Filter) (n : PreparedNode K)
      → r ≡ ok f
      → prepare_node K f ≡ ok n
      → match K n doc meta ≡ answer r
  leaf-says r f n h e = sym (ap answer h ∙ ap node_answer e)

  group-says :
      (name : Bytes) (op : FilterOp) (fs : Filters) (cs : Conditions) (f : Filter)
      (n : PreparedNode K)
      → group_operator_of name ≡ ok op
      → ((ns : PreparedNodes K) → prepare_nodes K fs ≡ ok ns → each_match ns ≡ each_says cs)
      → ◌≡◌ {A = Result TranslateError Filter} (ok (filter (some op) no_leaf fs)) (ok f)
      → prepare_node K f ≡ ok n
      → match K n doc meta ≡ combine (group_operator_to_filter_op name) (each_says cs)
  unfolding group_operator_of
  group-says name op fs cs f n g ih q e =
      let known =
        (require-ok (unknown_group_operator name) (group_operator_to_filter_op name) op).0 g in
      let tree = group-IsTree name op known in
      let e' : prepare_node K (filter (some op) no_leaf fs) ≡ ok n =
        ap (prepare_node K) (ok-injective (filter (some op) no_leaf fs) f q) ∙ e in
      let (ns, k) = tree-nodes op fs n tree e' in
      tree-combine op fs ns n tree k e'
      ∙ ap (combine (some op)) (ih ns k)
      ∙ ap (λ o. combine o (each_says cs)) (sym known)

  no_nodes-says : (ns : PreparedNodes K) → prepare_nodes K none_left ≡ ok ns → each_match ns ≡ []
  unfolding prepare_node
  no_nodes-says ns h =
      subst (λ ns. each_match ns ≡ []) (ok-injective no_nodes ns h) (unfold each_match in refl)

  cons-says :
      (f : Filter) (fs : Filters) (b : Bool) (bs : List Bool) (ns : PreparedNodes K)
      → ((n : PreparedNode K) → prepare_node K f ≡ ok n → match K n doc meta ≡ b)
      → ((ms : PreparedNodes K) → prepare_nodes K fs ≡ ok ms → each_match ms ≡ bs)
      → prepare_nodes K (f ◂ fs) ≡ ok ns
      → each_match ns ≡ b ∷ bs
  unfolding prepare_node each_match
  cons-says f fs b bs ns one rest h =
      let (n, e, k) = bind-ok (prepare_node K f) _ ns h in
      let (ms, e', q) = bind-ok (prepare_nodes K fs) _ ns k in
      subst (λ ns. each_match ns ≡ b ∷ bs) (ok-injective (node_more n ms) ns q)
        (ap₂ (λ x xs. x ∷ xs) (one n e) (rest ms e'))

  mutual
    unfolding desugared_to_filter holds

    condition-says :
        (c : Condition) (f : Filter) (n : PreparedNode K)
        → desugared_to_filter c fields ≡ ok f
        → prepare_node K f ≡ ok n
        → match K n doc meta ≡ says c
    condition-says (simple p op v) f n h e = leaf-says (simple_to_filter p op v fields) f n h e
    condition-says (lifecycle g op v) f n h e = leaf-says (lifecycle_to_filter g op v) f n h e
    condition-says (group name cs) f n h e =
        let (op, g, k) = bind-ok (group_operator_of name) _ f h in
        let (fs, g', q) = bind-ok (children_to_filters cs fields) _ f k in
        group-says name op fs cs f n g (λ ns r. conditions-say cs fs ns g' r) q e
    condition-says (array_clause p op vs) f n h e = cc h
    condition-says (function raw c) f n h e = cc h
    condition-says nil f n h e = cc h
    condition-says foreign f n h e = cc h

    conditions-say :
        (cs : Conditions) (fs : Filters) (ns : PreparedNodes K)
        → children_to_filters cs fields ≡ ok fs
        → prepare_nodes K fs ≡ ok ns
        → each_match ns ≡ each_says cs
    conditions-say done fs ns h e =
        no_nodes-says ns (ap (prepare_nodes K) (ok-injective none_left fs h) ∙ e)
    conditions-say (c ⨾ cs) fs ns h e =
        let (f, g, k) = bind-ok (desugared_to_filter c fields) _ fs h in
        let (gs, g', q) = bind-ok (children_to_filters cs fields) _ fs k in
        cons-says f gs (says c) (each_says cs) ns (λ n r. condition-says c f n g r)
          (λ ms r. conditions-say cs gs ms g' r)
          (ap (prepare_nodes K) (ok-injective (f ◂ gs) fs q) ∙ e)

  root-says :
      (f : Filter) (p : PreparedFilter K) (b : Bool)
      → HasOperator f
      → prepare K f ≡ ok p
      → ((n : PreparedNode K) → prepare_node K f ≡ ok n → match K n doc meta ≡ b)
      → match_filter K p doc meta ≡ b
  unfolding prepare match_filter
  root-says (filter none l fs) p b o h one = elim o [ ]
  root-says (filter (some op) l fs) p b o h one =
      let (n, e, q) = bind-ok (prepare_node K (filter (some op) l fs)) _ p h in
      subst (λ p. match_filter K p doc meta ≡ b) (ok-injective (some n) p q) (one n e)

  -- If a condition is translated and its filter is prepared, the prepared filter matches an entity
  -- exactly if the condition holds of it, where its groups combine the answers of their members, an
  -- array clause asks all of its positions, and a leaf gives the answer of its own filter.
  pub match_filter-holds :
      (c : Condition) (f : Filter) (p : PreparedFilter K)
      → condition_to_filter c fields ≡ ok f
      → prepare K f ≡ ok p
      → match_filter K p doc meta ≡ holds simple_answer lifecycle_answer c
  match_filter-holds c f p h e =
      let (d, q, k) = desugared_from c fields f h in
      root-says f p (says d) (translated-HasOperator d fields f k) e
        (λ n r. condition-says d f n k r)
      ∙ desugar_condition-holds simple_answer lifecycle_answer c d q
