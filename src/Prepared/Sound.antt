-- ===== src/Prepared/Sound.antt =====
-- For which reasons `Prepare` can refuse a filter that `ConditionToFilter` made.
use mathlib.Core.Option.{some-injective}
use cyoda_go_spi.Base.{
  codes, ◌≡◌, refl, sym, ◌∙◌, subst, inl, inr, List, [], ◌∷◌, none, some, Bytes, Result, ok,
  bind-ok, ok-injective, require-ok, wrap-ok, Bool-cases, if◌then◌else◌,
}
use cyoda_go_spi.Path.{PathHop, parse_filter_path}
use cyoda_go_spi.Operators.{
  FilterOp, filter_and, filter_or, filter_not, filter_eq, lookup_operator, leaf_kind_of, ExpKind,
  group_operator_to_filter_op, same_bytes,
}
use cyoda_go_spi.Operand.{Operand, array, Operands, is_range}
use cyoda_go_spi.Operand.Valid.{Fits}
use cyoda_go_spi.OrderClass.{source_data, source_meta}
use cyoda_go_spi.Conditions.{
  Condition, Conditions, simple, lifecycle, group, array_clause, function, nil, foreign, done, ◌⨾◌,
}
use cyoda_go_spi.WirePath.{strip_dollar_dot}
use cyoda_go_spi.WirePath.Strip.{strip_dollar_dot-Grammar}
use cyoda_go_spi.Translate.{
  TranslateError, Leaf, Filter, filter, Filters, none_left, ◌◂◌, FieldsMap, between_values,
  wire_path, simple_to_filter, lifecycle_to_filter, desugared_to_filter, children_to_filters,
  condition_to_filter, group_operator_of, invalid_path, unknown_group_operator, no_leaf,
  simple_leaf, lifecycle_leaf, canonical_field,
}
use cyoda_go_spi.Path.Plain.{parse_empty}
use cyoda_go_spi.Translate.HasFilter.{desugared_from}
use cyoda_go_spi.Prepared.Metadata.{is_recognized_meta_path}
use cyoda_go_spi.Translate.Steps.{steps-Built}
use cyoda_go_spi.Prepared.Kernels.{Kernel}
use cyoda_go_spi.Prepared.{
  leaf_hops, leaf_operand, prepare_leaf, prepare_node, prepare_nodes, prepare,
}
use cyoda_go_spi.Prepared.Late.{
  OnlyLate, then-OnlyLate, leaf-OnlyLate, first-OnlyLate, found-leaf, Fits-leaf_operand,
}

-- The operators of groups.
pub data IsTree : FilterOp → Type 0 where
  tree_and : IsTree filter_and
  tree_or : IsTree filter_or
  tree_not : IsTree filter_not

pub group-IsTree :
    (name : Bytes) (op : FilterOp) → group_operator_to_filter_op name ≡ some op → IsTree op
unfolding group_operator_to_filter_op
group-IsTree name op h = elim (Bool-cases (same_bytes (codes "AND") name)) [
  | inl a ↦ subst IsTree (some-injective filter_and op (rw a at h)) tree_and
  | inr a ↦ elim (Bool-cases (same_bytes (codes "OR") name)) [
    | inl b ↦ subst IsTree (some-injective filter_or op (rw (a, b) at h)) tree_or
    | inr b ↦ elim (Bool-cases (same_bytes (codes "NOT") name)) [
      | inl c ↦ subst IsTree (some-injective filter_not op (rw (a, b, c) at h)) tree_not
      | inr c ↦ cc (rw (a, b, c) at h)
    ]
  ]
]

module _ (K : Kernel) where
  prepare_node-leaf :
      (op : FilterOp) (l : Leaf) (fs : Filters)
      → (kind : ExpKind) × (leaf_kind_of op ≡ some kind)
      → prepare_node K (filter (some op) l fs) ≡ prepare_leaf K op l
  unfolding prepare_node leaf_kind_of
  prepare_node-leaf filter_and l fs (k, e) = cc e
  prepare_node-leaf filter_or l fs (k, e) = cc e
  prepare_node-leaf filter_not l fs (k, e) = cc e
  prepare_node-leaf filter_eq l fs k = refl
  prepare_node-leaf _ l fs k = refl

  built-OnlyLate :
      (name : Bytes) (v : Operand) (op : FilterOp) (vs : Operands) (l : Leaf)
      → lookup_operator name ≡ some op
      → Fits op v
      → between_values op v ≡ ok vs
      → l.value ≡ v
      → l.values ≡ vs
      → OnlyLate (leaf_hops l.source l.path)
      → OnlyLate (prepare_node K (filter (some op) l none_left))
  unfolding leaf_operand
  built-OnlyLate name v op vs l e fits b q r hops =
      let kind = found-leaf name op e in
      subst OnlyLate (sym (prepare_node-leaf op l none_left kind)) (
        leaf-OnlyLate K op l kind hops (
          subst (λ x. Fits op (if is_range op then array x else l.value)) (sym r)
            (subst (λ x. Fits op (if is_range op then array vs else x)) (sym q)
              (Fits-leaf_operand op v vs fits b))))

  data-hops : (p s : Bytes) → wire_path p ≡ ok s → OnlyLate (leaf_hops source_data s)
  unfolding wire_path leaf_hops
  data-hops p s e =
      let (_, (h, hops, k)) =
        (strip_dollar_dot-Grammar p s).0 ((wrap-ok invalid_path (strip_dollar_dot p) s).0 e) in
      fine s k
    where
      fine :
          (s : Bytes) {h : PathHop} {hops : List PathHop}
          → parse_filter_path s ≡ ok (h ∷ hops)
          → OnlyLate (leaf_hops source_data s)
      fine [] k = cc (sym parse_empty ∙ k)
      fine (c ∷ s) k = rw (k, leaf_hops) tt

  meta-hops : (p : Bytes) → OnlyLate (leaf_hops source_meta p)
  unfolding leaf_hops
  meta-hops p = elim (Bool-cases (is_recognized_meta_path p)) [
    | inl e ↦ rw (e, leaf_hops) tt
    | inr e ↦ rw (e, leaf_hops) tt
  ]

  simple-OnlyLate :
      (p name : Bytes) (v : Operand) (fields : FieldsMap) (f : Filter)
      → simple_to_filter p name v fields ≡ ok f
      → OnlyLate (prepare_node K f)
  unfolding simple_to_filter
  simple-OnlyLate p name v fields f h =
      let (s, e, k) = bind-ok (wire_path p) _ f h in
      let (op, vs, l, fits, b, q) = steps-Built name v (simple_leaf p s fields) f k in
      subst (λ f. OnlyLate (prepare_node K f)) q
        (built-OnlyLate name v op vs _ l fits b refl refl (data-hops p s e))

  lifecycle-OnlyLate :
      (g name : Bytes) (v : Operand) (f : Filter)
      → lifecycle_to_filter g name v ≡ ok f
      → OnlyLate (prepare_node K f)
  unfolding lifecycle_to_filter
  lifecycle-OnlyLate g name v f h =
      let (op, vs, l, fits, b, q) = steps-Built name v (lifecycle_leaf (canonical_field g)) f h in
      subst (λ f. OnlyLate (prepare_node K f)) q
        (built-OnlyLate name v op vs _ l fits b refl refl (meta-hops (canonical_field g)))

  tree-OnlyLate :
      (op : FilterOp) (fs : Filters)
      → IsTree op
      → OnlyLate (prepare_nodes K fs)
      → OnlyLate (prepare_node K (filter (some op) no_leaf fs))
  unfolding prepare_node
  tree-OnlyLate op fs tree_and h = then-OnlyLate (prepare_nodes K fs) _ h λ ns e. tt
  tree-OnlyLate op fs tree_or h = then-OnlyLate (prepare_nodes K fs) _ h λ ns e. tt
  tree-OnlyLate op none_left tree_not h = tt
  tree-OnlyLate op (f ◂ none_left) tree_not h =
      then-OnlyLate (prepare_node K f) _ (first-OnlyLate (prepare_node K f) _ h) λ ns e. tt
  tree-OnlyLate op (f ◂ g ◂ fs) tree_not h = tt

  group-OnlyLate :
      (name : Bytes) (op : FilterOp) (fs : Filters) (f : Filter)
      → group_operator_of name ≡ ok op
      → OnlyLate (prepare_nodes K fs)
      → ◌≡◌ {A = Result TranslateError Filter} (ok (filter (some op) no_leaf fs)) (ok f)
      → OnlyLate (prepare_node K f)
  unfolding group_operator_of
  group-OnlyLate name op fs f e h q =
      subst (λ f. OnlyLate (prepare_node K f)) (ok-injective (filter (some op) no_leaf fs) f q)
        (tree-OnlyLate op fs
          (group-IsTree name op
            ((require-ok (unknown_group_operator name) (group_operator_to_filter_op name) op).0 e))
          h)

  prepare_nodes_cons :
      (f : Filter) (fs : Filters)
      → OnlyLate (prepare_node K f)
      → OnlyLate (prepare_nodes K fs)
      → OnlyLate (prepare_nodes K (f ◂ fs))
  unfolding prepare_node
  prepare_nodes_cons f fs h hs =
      then-OnlyLate (prepare_node K f) _ h
        λ n e. then-OnlyLate (prepare_nodes K fs) _ hs λ ns e'. tt

  prepare_nodes_none : OnlyLate (prepare_nodes K none_left)
  unfolding prepare_node
  prepare_nodes_none = tt

  mutual
    unfolding desugared_to_filter

    condition-OnlyLate :
        (c : Condition) (fields : FieldsMap) (f : Filter)
        → desugared_to_filter c fields ≡ ok f
        → OnlyLate (prepare_node K f)
    condition-OnlyLate (simple p op v) fields f h = simple-OnlyLate p op v fields f h
    condition-OnlyLate (lifecycle g op v) fields f h = lifecycle-OnlyLate g op v f h
    condition-OnlyLate (group name cs) fields f h =
        let (op, e, k) = bind-ok (group_operator_of name) _ f h in
        let (fs, e', q) = bind-ok (children_to_filters cs fields) _ f k in
        group-OnlyLate name op fs f e (conditions-OnlyLate cs fields fs e') q
    condition-OnlyLate (array_clause p op vs) fields f h = cc h
    condition-OnlyLate (function raw c) fields f h = cc h
    condition-OnlyLate nil fields f h = cc h
    condition-OnlyLate foreign fields f h = cc h

    conditions-OnlyLate :
        (cs : Conditions) (fields : FieldsMap) (fs : Filters)
        → children_to_filters cs fields ≡ ok fs
        → OnlyLate (prepare_nodes K fs)
    conditions-OnlyLate done fields fs h =
        subst (λ fs. OnlyLate (prepare_nodes K fs)) (ok-injective none_left fs h) prepare_nodes_none
    conditions-OnlyLate (c ⨾ cs) fields fs h =
        let (f, e, k) = bind-ok (desugared_to_filter c fields) _ fs h in
        let (gs, e', q) = bind-ok (children_to_filters cs fields) _ fs k in
        subst (λ fs. OnlyLate (prepare_nodes K fs)) (ok-injective (f ◂ gs) fs q)
          (prepare_nodes_cons f gs (condition-OnlyLate c fields f e)
            (conditions-OnlyLate cs fields gs e'))

  root-OnlyLate : (f : Filter) → OnlyLate (prepare_node K f) → OnlyLate (prepare K f)
  unfolding prepare
  root-OnlyLate (filter none l fs) h = tt
  root-OnlyLate (filter (some op) l fs) h =
      then-OnlyLate (prepare_node K (filter (some op) l fs)) _ h λ n e. tt

  -- The filter of a condition is prepared, or refused for one of four reasons: a NOT without exactly
  -- one member, a field outside the metadata's vocabulary, an operand that is not expanded, or a
  -- pattern that does not compile. Its operators, its paths and the shapes of its operands pass.
  pub prepare-condition_to_filter :
      (c : Condition) (fields : FieldsMap) (f : Filter)
      → condition_to_filter c fields ≡ ok f
      → OnlyLate (prepare K f)
  prepare-condition_to_filter c fields f h =
      let (d, e, k) = desugared_from c fields f h in
      root-OnlyLate f (condition-OnlyLate d fields f k)
