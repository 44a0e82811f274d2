-- ===== src/Operand/Valid.antt =====
-- Which operands `ValidateOperand` accepts.
use cyoda_go_spi.Base.{
  ◌≡◌, ◌↔◌, refl, sym, subst, arith, ◌==◌, ==_iff, if◌then◌else◌, Bool, true, false, none, some,
  Bool-cases, inl, inr, Bytes,
}
use cyoda_go_spi.Base.Int.{ℤ}
use cyoda_go_spi.Operators.{FilterOp}
use cyoda_go_spi.Operand.{
  Operand, missing, text, truth, json_number, int, float, object, array, typed_array, other,
  Operands, end, ◌▷◌, operand_shape_of, is_range, is_presence, check_bounds, check_array, count,
  shape_scalar, validate_operand, between_not_array,
}

-- The closed set of scalars.
pub data IsScalar : Operand → Type 0 where
  a_text : {s : Bytes} → IsScalar (text s)
  a_truth : {b : Bool} → IsScalar (truth b)
  a_json_number : {s : Bytes} → IsScalar (json_number s)
  an_int : {i : ℤ} → IsScalar (int i)
  a_float : {s : Bytes} → IsScalar (float s)

-- A scalar under an operator that is no range, nothing under a presence test, or the two scalar
-- bounds of a range.
pub data Fits : FilterOp → Operand → Type 0 where
  single : {op : FilterOp} {v : Operand} → is_range op ≡ false → IsScalar v → Fits op v
  unused : {op : FilterOp} → is_presence op ≡ true → Fits op missing
  bounds :
      {op : FilterOp} {low high : Operand}
      → is_range op ≡ true
      → IsScalar low
      → IsScalar high
      → Fits op (array (low ▷ high ▷ end))

IsScalar-of :
    (b : Operand) (bs : Operands)
    → check_bounds (b ▷ bs) ≡ none
    → IsScalar b × (check_bounds bs ≡ none)
unfolding check_bounds operand_shape_of
IsScalar-of (text s) bs h = (a_text, h)
IsScalar-of (truth s) bs h = (a_truth, h)
IsScalar-of (json_number s) bs h = (a_json_number, h)
IsScalar-of (int s) bs h = (an_int, h)
IsScalar-of (float s) bs h = (a_float, h)
IsScalar-of missing bs h = cc h
IsScalar-of (object _) bs h = cc h
IsScalar-of (array _) bs h = cc h
IsScalar-of (typed_array _) bs h = cc h
IsScalar-of (other _) bs h = cc h

scalar_shape : (v : Operand) → IsScalar v → operand_shape_of v ≡ shape_scalar
unfolding operand_shape_of
scalar_shape v a_text = refl
scalar_shape v a_truth = refl
scalar_shape v a_json_number = refl
scalar_shape v an_int = refl
scalar_shape v a_float = refl

check-scalar : (b : Operand) (bs : Operands) → IsScalar b → check_bounds (b ▷ bs) ≡ check_bounds bs
unfolding check_bounds
check-scalar b bs s = rw (scalar_shape b s, check_bounds)

count_zero : (vs : Operands) → count vs ≡ 0 → vs ≡ end
unfolding count
count_zero end h = refl
count_zero (v ▷ vs) h = absurd (omega (arith, h))

-- Two bounds, both scalars.
pair_of :
    (op : FilterOp) (vs : Operands)
    → is_range op ≡ true
    → check_array true (array vs) ≡ none
    → Fits op (array vs)
unfolding check_array
pair_of op vs e h = elim (Bool-cases (count vs == 2)) [
  | inl c ↦ two vs ((==_iff (count vs) 2).0 c) (rw c at h)
  | inr c ↦ cc (rw c at h)
]
  where
    two : (vs : Operands) → count vs ≡ 2 → check_bounds vs ≡ none → Fits op (array vs)
    two end c h = absurd (unfold count in omega (arith, c))
    two (a ▷ end) c h = absurd (unfold count in omega (arith, c))
    two (a ▷ b ▷ vs) c h =
        let (sa, h') = IsScalar-of a (b ▷ vs) h in
        let (sb, _) = IsScalar-of b vs h' in
        subst (λ rest. Fits op (array (a ▷ b ▷ rest)))
          (sym (count_zero vs (unfold count in omega (arith, c)))) (bounds e sa sb)

lone :
    (op : FilterOp) (v : Operand)
    → IsScalar v
    → (if is_range op then some between_not_array else none) ≡ none
    → Fits op v
lone op v s h = elim (Bool-cases (is_range op)) [ inl e ↦ cc (rw e at h) | inr e ↦ single e s ]

accepted-Fits : (op : FilterOp) (v : Operand) → validate_operand op v ≡ none → Fits op v
unfolding validate_operand operand_shape_of
accepted-Fits op missing h = elim (Bool-cases (is_presence op)) [
  | inl e ↦ unused e
  | inr e ↦ cc (rw e at h)
]
accepted-Fits op (object _) h = cc h
accepted-Fits op (other _) h = cc h
accepted-Fits op (text s) h = lone op (text s) a_text h
accepted-Fits op (truth s) h = lone op (truth s) a_truth h
accepted-Fits op (json_number s) h = lone op (json_number s) a_json_number h
accepted-Fits op (int s) h = lone op (int s) an_int h
accepted-Fits op (float s) h = lone op (float s) a_float h
accepted-Fits op (typed_array s) h = elim (Bool-cases (is_range op)) [
  | inl e ↦ cc (rw (e, check_array) at h)
  | inr e ↦ cc (rw (e, check_array) at h)
]
accepted-Fits op (array vs) h = elim (Bool-cases (is_range op)) [
  | inl e ↦ pair_of op vs e (rw e at h)
  | inr e ↦ cc (rw (e, check_array) at h)
]

Fits-accepted : (op : FilterOp) (v : Operand) → Fits op v → validate_operand op v ≡ none
unfolding validate_operand check_array count
Fits-accepted op v (single e s) = rw (scalar_shape v s, e, validate_operand)
Fits-accepted op v (unused e) = unfold operand_shape_of in rw e
Fits-accepted op v (bounds {low} {high} e a b) =
    unfold operand_shape_of in
    rw (e, check-scalar low (high ▷ end) a, check-scalar high end b, check_bounds)

-- `ValidateOperand` accepts exactly a scalar under an operator that is no range, nil under a
-- presence test, and an array of two scalars under a range.
pub validate_operand-Fits :
    (op : FilterOp) (v : Operand) → (validate_operand op v ≡ none) ↔ Fits op v
validate_operand-Fits op v = (accepted-Fits op v, Fits-accepted op v)
