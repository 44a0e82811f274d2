-- ===== src/Translate/Steps.antt =====
-- The steps that the translations of the two kinds of leaf share.
use cyoda_go_spi.Base.{
  ◌≡◌, refl, sym, ◌∙◌, subst, inl, inr, true, false, some, Bytes, Result, ok, ◌>>=◌, require-ok,
  bind-ok, ok-injective, Option-cases, Bool-cases,
}
use cyoda_go_spi.Operators.{FilterOp, filter_between, filter_between_inclusive, lookup_operator}
use cyoda_go_spi.Operand.{Operand, Operands, end, ◌▷◌, is_range, is_presence, validate_operand}
use cyoda_go_spi.Operand.Valid.{Fits, single, unused, bounds, validate_operand-Fits}
use cyoda_go_spi.WirePath.{strip_dollar_dot}
use cyoda_go_spi.Translate.{
  Filter, TranslateError, between_values, operator_of, checked_operand, unknown_operator,
}

-- The name of a leaf's operator is known, and the operand fits it.
abbrev pub OperandFits : Bytes → Operand → Type 0
OperandFits name v = (op : FilterOp) × (lookup_operator name ≡ some op) × Fits op v

-- The path of a request, which `stripDollarDot` accepts.
abbrev pub IsWirePath : Bytes → Type 0
IsWirePath p = (s : Bytes) × (strip_dollar_dot p ≡ ok s)

pub no_range : (op : FilterOp) → is_presence op ≡ true → is_range op ≡ false
unfolding is_presence is_range
no_range filter_between h = cc h
no_range filter_between_inclusive h = cc h
no_range _ h = refl

-- The bounds of an operand that fits, which is an array under a range.
values-Fits :
    (op : FilterOp) (v : Operand) → Fits op v → (vs : Operands) × (between_values op v ≡ ok vs)
unfolding between_values
values-Fits op v (single e s) = (end, rw e)
values-Fits op v (unused e) = elim (Bool-cases (is_range op)) [
  | inl r ↦ cc (sym (no_range op e) ∙ r)
  | inr r ↦ (end, rw r)
]
values-Fits op v (bounds {low} {high} e a b) = (low ▷ high ▷ end, rw e)

checked_operand-ok :
    (op : FilterOp) (v w : Operand) → checked_operand op v ≡ ok w → (v ≡ w) × Fits op v
unfolding checked_operand
checked_operand-ok op v w h = elim (Option-cases (validate_operand op v)) [
  | inl e ↦ (ok-injective v w (rw (e, checked_operand) at h), (validate_operand-Fits op v).0 e)
  | inr (why, e) ↦ cc (rw (e, checked_operand) at h)
]

Fits-checked : (op : FilterOp) (v : Operand) → Fits op v → checked_operand op v ≡ ok v
unfolding checked_operand
Fits-checked op v h = rw ((validate_operand-Fits op v).1 h, checked_operand)

-- The steps that the two leaf translations share.
module _ (name : Bytes) (v : Operand) (build : FilterOp → Operand → Operands → Filter) where
  abbrev steps : Result TranslateError Filter
  steps = operator_of name >>= λ op.
      checked_operand op v >>= λ w. between_values op w >>= λ vs. ok (build op w vs)

  -- What the leaf's filter is built from.
  abbrev pub Built : Filter → Type 0
  Built f =
      (op : FilterOp) × (vs : Operands) × (lookup_operator name ≡ some op)
      × Fits op v
      × (between_values op v ≡ ok vs)
      × (build op v vs ≡ f)

  pub steps-Built : (f : Filter) → steps ≡ ok f → Built f
  steps-Built f h =
      let (op, e, k) = bind-ok (operator_of name) _ f h in
      let (w, e', k') = bind-ok (checked_operand op v) _ f k in
      let (same_value, fits) = checked_operand-ok op v w e' in
      let (vs, e'', k'') = bind-ok (between_values op w) _ f k' in
      (
        op,
        vs,
        (unfold operator_of in (require-ok (unknown_operator name) (lookup_operator name) op).0 e),
        fits,
        subst (λ x. between_values op x ≡ ok vs) (sym same_value) e'',
        subst (λ x. build op x vs ≡ f) (sym same_value) (ok-injective (build op w vs) f k''),
      )

  pub OperandFits-steps : OperandFits name v → (f : Filter) × (steps ≡ ok f)
  unfolding operator_of
  OperandFits-steps (op, e, fits) =
      let (vs, k) = values-Fits op v fits in (build op v vs, rw (e, Fits-checked op v fits, k))
