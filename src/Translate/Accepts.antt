-- ===== src/Translate/Accepts.antt =====
-- Which conditions `ConditionToFilter` translates.
use cyoda_go_spi.Base.{
  ◌≡◌, ◌↔◌, refl, sym, ◌∙◌, subst, true, Bytes, ok, ◌>>=◌, bind-ok, ok-injective,
}
use cyoda_go_spi.Operand.{Operand, Operands}
use cyoda_go_spi.Conditions.{
  Condition, Conditions, simple, lifecycle, group, array_clause, function, nil, foreign, done, ◌⨾◌,
  element_leaves, desugar_array_condition, desugar_condition, desugar_conditions,
}
use cyoda_go_spi.Conditions.Settled.{tests_position, clause-Accepted, clause-tests}
use cyoda_go_spi.Translate.Steps.{OperandFits, IsWirePath}
use cyoda_go_spi.Translate.{
  Filter, FieldsMap, desugared_to_filter, filter_of, condition_to_filter, none_left,
}
use cyoda_go_spi.Translate.HasFilter.{
  PositionsFit, IsGroupOperator, HasFilter, HaveFilters, simple-HasFilter, lifecycle-HasFilter,
  group-HasFilter, cons-HaveFilters, leaves-HaveFilters, clause-HasFilter, desugared_from,
}

-- The conditions that have a filter.
unfoldable mutual
  pub Translatable : Condition → Type 0
  Translatable (simple p op v) = IsWirePath p × OperandFits op v
  Translatable (lifecycle f op v) = OperandFits op v
  Translatable (group op cs) = IsGroupOperator op × AllTranslatable cs
  Translatable (array_clause p op vs) = (tests_position vs ≡ true) × PositionsFit p op 0 vs
  Translatable (function raw c) = ⊥
  Translatable nil = ⊥
  Translatable foreign = ⊥

  pub AllTranslatable : Conditions → Type 0
  AllTranslatable done = Unit
  AllTranslatable (c ⨾ cs) = Translatable c × AllTranslatable cs

-- The caller's map of fields is given throughout.
module _ (fields : FieldsMap) where
  -- What a condition is desugared to has a filter.
  abbrev Desugared : Condition → Type 0
  Desugared c = (d : Condition) × (desugar_condition c ≡ ok d) × HasFilter fields d

  abbrev AllDesugared : Conditions → Type 0
  AllDesugared cs = (ds : Conditions) × (desugar_conditions cs ≡ ok ds) × HaveFilters fields ds

  itself : (c : Condition) → desugar_condition c ≡ ok c → Desugared c ↔ HasFilter fields c
  itself c e =
      (λ (d, e', f). subst (HasFilter fields) (ok-injective d c (sym e' ∙ e)) f, λ f. (c, e, f))

  group-Desugared :
      (op : Bytes) (cs : Conditions)
      → Desugared (group op cs) ↔ (IsGroupOperator op × AllDesugared cs)
  unfolding desugar_condition
  group-Desugared op cs = (
    λ (d, e, f).
        let (ds, e', k) = bind-ok (desugar_conditions cs) (λ ds. ok (group op ds)) d e in
        let (o, fs) =
          (group-HasFilter fields op ds).0
            (subst (HasFilter fields) (sym (ok-injective (group op ds) d k)) f) in
        (o, (ds, e', fs)),
    λ (o, (ds, e, fs)).
        (group op ds, rw (e, desugar_condition), (group-HasFilter fields op ds).1 (o, fs)),
  )

  cons-AllDesugared :
      (c : Condition) (cs : Conditions) → AllDesugared (c ⨾ cs) ↔ (Desugared c × AllDesugared cs)
  unfolding desugar_condition
  cons-AllDesugared c cs = (
    λ (es, e, f).
        let (d, e', k) =
          bind-ok (desugar_condition c) (λ d. desugar_conditions cs >>= λ ds. ok (d ⨾ ds)) es e in
        let (ds, e'', k') = bind-ok (desugar_conditions cs) (λ ds. ok (d ⨾ ds)) es k in
        let (g, gs) =
          (cons-HaveFilters fields d ds).0
            (subst (HaveFilters fields) (sym (ok-injective (d ⨾ ds) es k')) f) in
        ((d, e', g), (ds, e'', gs)),
    λ ((d, e, g), (ds, e', gs)).
        (d ⨾ ds, rw (e, e', desugar_conditions), (cons-HaveFilters fields d ds).1 (g, gs)),
  )

  array-Desugared :
      (p op : Bytes) (vs : Operands)
      → Desugared (array_clause p op vs) ↔ ((tests_position vs ≡ true) × PositionsFit p op 0 vs)
  unfolding desugar_condition desugar_array_condition
  array-Desugared p op vs = (
    λ (d, e, f). (
      clause-tests p op vs (d, e),
      (leaves-HaveFilters fields p op 0 vs).0
          ((clause-HasFilter fields p (element_leaves p op 0 vs) d e).0 f),
    ),
    λ (t, fit).
        let (d, e) = clause-Accepted p op vs t in
        (
          d,
          e,
          (clause-HasFilter fields p (element_leaves p op 0 vs) d e).1
              ((leaves-HaveFilters fields p op 0 vs).1 fit),
        ),
  )

  simple_stays :
      (p op : Bytes) (v : Operand) → desugar_condition (simple p op v) ≡ ok (simple p op v)
  unfolding desugar_condition
  simple_stays p op v = refl

  lifecycle_stays :
      (p op : Bytes) (v : Operand) → desugar_condition (lifecycle p op v) ≡ ok (lifecycle p op v)
  unfolding desugar_condition
  lifecycle_stays p op v = refl

  AllDesugared-done : AllDesugared done
  unfolding desugar_condition desugared_to_filter
  AllDesugared-done = (done, refl, (none_left, refl))

  -- Neither a callout, nor nil, nor a foreign condition has a filter.
  abbrev IsOther : Condition → Type 0
  IsOther (function raw c) = Unit
  IsOther nil = Unit
  IsOther foreign = Unit
  IsOther _ = ⊥

  other_refused : (c : Condition) → IsOther c → Desugared c → ⊥
  unfolding desugar_condition desugared_to_filter
  other_refused (function raw c) o (d, e, (f, k)) =
      cc (
        subst (λ d. desugared_to_filter d fields ≡ ok f) (sym (ok-injective (function raw c) d e))
          k)
  other_refused nil o (d, e, (f, k)) =
      cc (subst (λ d. desugared_to_filter d fields ≡ ok f) (sym (ok-injective nil d e)) k)
  other_refused foreign o (d, e, (f, k)) =
      cc (subst (λ d. desugared_to_filter d fields ≡ ok f) (sym (ok-injective foreign d e)) k)
  other_refused (group op cs) o h = elim o [ ]
  other_refused _ o h = elim o [ ]

  mutual
    unfolding Translatable

    desugared : (c : Condition) → Desugared c ↔ Translatable c
    desugared (simple p op v) =
        let a = itself (simple p op v) (simple_stays p op v) in
        let b = simple-HasFilter fields p op v in (λ x. b.0 (a.0 x), λ x. a.1 (b.1 x))
    desugared (lifecycle g op v) =
        let a = itself (lifecycle g op v) (lifecycle_stays g op v) in
        let b = lifecycle-HasFilter fields g op v in (λ x. b.0 (a.0 x), λ x. a.1 (b.1 x))
    desugared (array_clause p op vs) = array-Desugared p op vs
    desugared (group op cs) =
        let a = group-Desugared op cs in
        let b = all_desugared cs in
        (λ x. let (o, r) = a.0 x in (o, b.0 r), λ (o, r). a.1 (o, b.1 r))
    desugared (function raw c) = (λ x. other_refused (function raw c) tt x, λ x. absurd x)
    desugared nil = (λ x. other_refused nil tt x, λ x. absurd x)
    desugared foreign = (λ x. other_refused foreign tt x, λ x. absurd x)

    all_desugared : (cs : Conditions) → AllDesugared cs ↔ AllTranslatable cs
    all_desugared done = (λ x. tt, λ x. AllDesugared-done)
    all_desugared (c ⨾ cs) =
        let a = cons-AllDesugared c cs in
        let b = desugared c in
        let bs = all_desugared cs in
        (λ x. let (d, ds) = a.0 x in (b.0 d, bs.0 ds), λ (d, ds). a.1 (b.1 d, bs.1 ds))

  -- The filter of a condition that is not nil is that of what it is desugared to.
  through :
      (c : Condition)
      → condition_to_filter c fields ≡ filter_of (desugar_condition c) fields
      → ((f : Filter) × (condition_to_filter c fields ≡ ok f)) ↔ Translatable c
  unfolding filter_of
  through c e =
      let b = desugared c in
      (
        λ (f, h). b.0 (let (d, q, k) = desugared_from c fields f h in (d, q, (f, k))),
        λ t. let (d, h, (f, k)) = b.1 t in (f, e ∙ rw (h, filter_of) k),
      )

  -- A map of fields is given. `ConditionToFilter` returns a filter exactly for a condition all of
  -- whose groups have a known operator, whose simple leaves and tested positions have a path of the
  -- grammar, whose leaves have a known operator with an operand that fits it, whose array clauses
  -- test a position, and in which no callout, nil or foreign condition stands.
  pub condition_to_filter-Translatable :
      (c : Condition) → ((f : Filter) × (condition_to_filter c fields ≡ ok f)) ↔ Translatable c
  unfolding condition_to_filter Translatable
  condition_to_filter-Translatable nil = (λ (f, h). cc h, λ x. absurd x)
  condition_to_filter-Translatable (simple p op v) = through (simple p op v) refl
  condition_to_filter-Translatable c = through c refl
