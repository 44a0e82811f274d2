-- ===== src/Translate/HasFilter.antt =====
-- When a desugared condition, its leaves and its groups have a filter.
use cyoda_go_spi.Base.{
  ◌≡◌, ◌↔◌, refl, subst, ℕ, suc, some, Bytes, codes, Result, ok, err, require-ok, wrap-ok, bind-ok,
  ok-injective,
}
use cyoda_go_spi.Operators.{FilterOp, filter_and, group_operator_to_filter_op}
use cyoda_go_spi.Operand.{Operand, missing, text, Operands, end, ◌▷◌}
use cyoda_go_spi.Conditions.{
  DesugarError, Condition, Conditions, simple, lifecycle, group, nil, done, ◌⨾◌,
  desugar_array_element_path, element_leaves, clause_of, desugar_condition,
}
use cyoda_go_spi.Translate.Steps.{OperandFits, IsWirePath, steps-Built, OperandFits-steps}
use cyoda_go_spi.WirePath.{strip_dollar_dot}
use cyoda_go_spi.Translate.{
  Filter, filter, Filters, FieldsMap, wire_path, simple_to_filter, lifecycle_to_filter,
  group_operator_of, desugared_to_filter, children_to_filters, filter_of, condition_to_filter,
  simple_leaf, no_leaf, ◌◂◌, none_left, unknown_group_operator, invalid_path,
}

-- Each tested position, counted from `i`, has a path and an operand that fit.
abbrev pub PositionsFit : Bytes → Bytes → ℕ → Operands → Type 0
PositionsFit p op i end = Unit
PositionsFit p op i (missing ▷ vs) = PositionsFit p op (suc i) vs
PositionsFit p op i (v ▷ vs) =
    (IsWirePath (desugar_array_element_path p i) × OperandFits op v) × PositionsFit p op (suc i) vs

abbrev pub IsGroupOperator : Bytes → Type 0
IsGroupOperator name = (op : FilterOp) × (group_operator_to_filter_op name ≡ some op)

module _ (fields : FieldsMap) where
  abbrev pub HasFilter : Condition → Type 0
  HasFilter c = (f : Filter) × (desugared_to_filter c fields ≡ ok f)

  abbrev pub HaveFilters : Conditions → Type 0
  HaveFilters cs = (fs : Filters) × (children_to_filters cs fields ≡ ok fs)

  pub simple-HasFilter :
      (p op : Bytes) (v : Operand) → HasFilter (simple p op v) ↔ (IsWirePath p × OperandFits op v)
  unfolding desugared_to_filter simple_to_filter wire_path
  simple-HasFilter p op v = (
    λ (f, h).
        let (s, e, k) = bind-ok (wire_path p) _ f h in
        let (o, vs, l, fits, _, _) = steps-Built op v _ f k in
        ((s, (wrap-ok invalid_path (strip_dollar_dot p) s).0 e), (o, l, fits)),
    λ ((s, e), fits).
        let (f, h) = OperandFits-steps op v (simple_leaf p s fields) fits in (f, rw e h),
  )

  pub lifecycle-HasFilter :
      (g op : Bytes) (v : Operand) → HasFilter (lifecycle g op v) ↔ OperandFits op v
  unfolding desugared_to_filter lifecycle_to_filter
  lifecycle-HasFilter g op v = (
    λ (f, h). let (o, vs, l, fits, _, _) = steps-Built op v _ f h in (o, l, fits),
    λ fits. OperandFits-steps op v _ fits,
  )

  pub group-HasFilter :
      (op : Bytes) (cs : Conditions)
      → HasFilter (group op cs) ↔ (IsGroupOperator op × HaveFilters cs)
  unfolding desugared_to_filter group_operator_of
  group-HasFilter op cs = (
    λ (f, h).
        let (o, e, k) = bind-ok (group_operator_of op) _ f h in
        let (fs, e', k') = bind-ok (children_to_filters cs fields) _ f k in
        (
          (o, (require-ok (unknown_group_operator op) (group_operator_to_filter_op op) o).0 e),
          (fs, e'),
        ),
    λ ((o, e), (fs, e')). (filter (some o) no_leaf fs, rw (e, e', desugared_to_filter)),
  )

  pub cons-HaveFilters :
      (c : Condition) (cs : Conditions) → HaveFilters (c ⨾ cs) ↔ (HasFilter c × HaveFilters cs)
  unfolding desugared_to_filter
  cons-HaveFilters c cs = (
    λ (fs, h).
        let (f, e, k) = bind-ok (desugared_to_filter c fields) _ fs h in
        let (gs, e', k') = bind-ok (children_to_filters cs fields) _ fs k in ((f, e), (gs, e')),
    λ ((f, e), (gs, e')). (f ◂ gs, rw (e, e', children_to_filters)),
  )

  one_more :
      (p op : Bytes) (i : ℕ) (v : Operand) (vs : Operands)
      → HaveFilters (element_leaves p op (suc i) vs) ↔ PositionsFit p op (suc i) vs
      → HaveFilters (simple (desugar_array_element_path p i) op v ⨾ element_leaves p op (suc i) vs)
        ↔ ((IsWirePath (desugar_array_element_path p i) × OperandFits op v)
            × PositionsFit p op (suc i) vs)
  one_more p op i v vs rest =
      let both =
        cons-HaveFilters (simple (desugar_array_element_path p i) op v)
          (element_leaves p op (suc i) vs) in
      let leaf = simple-HasFilter (desugar_array_element_path p i) op v in
      (λ h. (leaf.0 (both.0 h).0, rest.0 (both.0 h).1), λ (a, b). both.1 (leaf.1 a, rest.1 b))

  pub leaves-HaveFilters :
      (p op : Bytes) (i : ℕ) (vs : Operands)
      → HaveFilters (element_leaves p op i vs) ↔ PositionsFit p op i vs
  unfolding element_leaves
  leaves-HaveFilters p op i end = (λ h. tt, λ h. unfold desugared_to_filter in (none_left, refl))
  leaves-HaveFilters p op i (missing ▷ vs) = leaves-HaveFilters p op (suc i) vs
  leaves-HaveFilters p op i (text s ▷ vs) =
      one_more p op i (text s) vs (leaves-HaveFilters p op (suc i) vs)
  leaves-HaveFilters p op i (v ▷ vs) = one_more p op i v vs (leaves-HaveFilters p op (suc i) vs)

  pub clause-HasFilter :
      (p : Bytes) (ls : Conditions) (d : Condition)
      → clause_of p ls ≡ ok d
      → HasFilter d ↔ HaveFilters ls
  unfolding clause_of
  clause-HasFilter p done d h = cc h
  clause-HasFilter p (leaf ⨾ done) d h =
      let both = cons-HaveFilters leaf done in
      subst (λ c. HasFilter c ↔ HaveFilters (leaf ⨾ done)) (ok-injective leaf d h)
        (λ a. both.1 (a, unfold desugared_to_filter in (none_left, refl)), λ b. (both.0 b).0)
  clause-HasFilter p (leaf ⨾ next ⨾ more) d h =
      let both = group-HasFilter (codes "AND") (leaf ⨾ next ⨾ more) in
      subst (λ c. HasFilter c ↔ HaveFilters (leaf ⨾ next ⨾ more))
        (ok-injective (group (codes "AND") (leaf ⨾ next ⨾ more)) d h)
        (
          λ a. (both.0 a).1,
          λ b. both.1 ((filter_and, unfold group_operator_to_filter_op in refl), b),
        )

-- The filter of a condition is that of what it is desugared to.
filter_of-ok :
    (r : Result DesugarError Condition) (fields : FieldsMap) (f : Filter)
    → filter_of r fields ≡ ok f
    → (d : Condition) × (r ≡ ok d) × (desugared_to_filter d fields ≡ ok f)
unfolding filter_of
filter_of-ok (err w) fields f h = cc h
filter_of-ok (ok d) fields f h = (d, refl, h)

pub desugared_from :
    (c : Condition) (fields : FieldsMap) (f : Filter)
    → condition_to_filter c fields ≡ ok f
    → (d : Condition) × (desugar_condition c ≡ ok d) × (desugared_to_filter d fields ≡ ok f)
unfolding condition_to_filter
desugared_from nil fields f h = cc h
desugared_from (simple p op v) fields f h =
    filter_of-ok (desugar_condition (simple p op v)) fields f h
desugared_from c fields f h = filter_of-ok (desugar_condition c) fields f h
