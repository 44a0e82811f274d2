-- ===== src/Numeric/Families.antt =====
-- The branches of the two families.
use cyoda_go_spi.Base.{
  ◌-◌, ◌<◌, ◌%◌, ◌≡◌, refl, sym, ap, ◌∙◌, arith, inl, inr, true, false, leb→le, Bool, Bool-cases,
  [], ◌∷◌, Option, none, some,
}
use cyoda_go_spi.Base.Int.{ℤ, pos, pos_part, neg_part, ltb_ℤ, leb_ℤ, magnitude, ◌≤ℤ◌, ◌<ℤ◌, ◌-ℤ◌}
use cyoda_go_spi.Types.{
  DataType, integer, long, big_integer, unbound_integer, double, big_decimal, unbound_decimal,
  numeric_family,
}
use cyoda_go_spi.Operators.{cmp_result}
use cyoda_go_spi.Decimal.{
  Decimal, cmp, precision, min_int32, max_int32, IsInt32, strip_trailing_zeros,
}
use cyoda_go_spi.Numeric.{
  condition, to_range, by_range, is_in_range, neg, whole, double_bucket_max, admits_numeric,
  admits_stripped, decimal_branch, int_branch, produce_decimal_in_range, is_double_bucket_precise,
  is_comparing_op, is_negative_op, fold_to_int, admits_whole_in_range,
}
use cyoda_go_spi.Numeric.Grid.{Comparison, op_of}
use cyoda_go_spi.Numeric.Values.{Last, strip-IsInt32, cmp-strip_left, grid-want, fraction-want}
use cyoda_go_spi.Numeric.Double.{double-want}
use cyoda_go_spi.Numeric.Imprecise.{imprecise-want, in_range-IsInt32}
use cyoda_go_spi.Numeric.Branches.{
  want, Answers, Answers-map, to_range-inside, by_range-Answers, condition-Answers,
}

module _ (c : Comparison) (x v : Decimal) (bx : IsInt32 x.scale) where
  b : min_int32 ≤ℤ x.scale
  b = bx.0

  -- Which types admit the stored value.
  abbrev pub holding : DataType → Bool
  holding t = admits_numeric t x

  -- The ends of a type's range, for the stored value itself.
  ends :
      (low high : Decimal)
      → is_in_range (to_range (strip_trailing_zeros x) low high) ≡ true
      → (ltb_ℤ (cmp x low) (pos 0) ≡ false) × (ltb_ℤ (pos 0) (cmp x high) ≡ false)
  ends low high h =
      let (l, u) = to_range-inside (strip_trailing_zeros x) low high h in
      (
        ap (λ a. ltb_ℤ a (pos 0)) (sym (cmp-strip_left x low b)) ∙ l,
        ap (λ a. ltb_ℤ (pos 0) a) (sym (cmp-strip_left x high b)) ∙ u,
      )

  -- Any statement about the stored value, read off the stripped one.
  by_stripped : (w : Bool) (o : Decimal) → want c (strip_trailing_zeros x) o ≡ w → want c x o ≡ w
  by_stripped w o h = ap (λ a. cmp_result a (op_of c)) (sym (cmp-strip_left x o b)) ∙ h

  double-Answers :
      Last v
      → (15 < precision v → IsInt32 (v.scale -ℤ pos (precision v - 15)))
      → Answers holding c (want c x v) x double (produce_decimal_in_range double v (op_of c))
  unfolding produce_decimal_in_range admits_numeric admits_stripped
  double-Answers last room = elim (Bool-cases (is_double_bucket_precise v)) [
    | inl e ↦ rw e (condition-Answers holding c x v double v (λ a. refl))
    | inr e ↦ elim (Bool-cases (is_comparing_op (op_of c))) [
      | inl g ↦
          rw (e, g)
            (condition-Answers holding c x v double _ (λ a. by_stripped _ _ (
              double-want c (strip_trailing_zeros x) v g (precise a) room
              ∙ ap (λ a. cmp_result a (op_of c)) (cmp-strip_left x v b))))
      | inr g ↦
          rw (e, g)
            (inl (
              refl,
              λ a. sym (
                  by_stripped _ _ (
                    imprecise-want c (strip_trailing_zeros x) v g (strip-IsInt32 x bx).0 last
                      (precise a) e)),
            ))
    ]
  ]
    where
      precise :
          admits_numeric double x ≡ true → is_double_bucket_precise (strip_trailing_zeros x) ≡ true
      precise a = ground (arith, a)

  pub decimal-Answers :
      (t : DataType)
      → Last v
      → v.scale ≤ℤ max_int32
      → numeric_family t ≡ 2
      → Answers holding c (want c x v) x t (decimal_branch v (op_of c) t)
  unfolding decimal_branch admits_numeric admits_stripped produce_decimal_in_range
  decimal-Answers double last m h =
      by_range-Answers holding c x v double _ _ _ (λ a. (ends _ _ (range a)).0)
        (λ a. (ends _ _ (range a)).1) (λ l h. double-Answers last (in_range-IsInt32 v m l h))
    where
      range :
          admits_numeric double x ≡ true
          → is_in_range
              (to_range (strip_trailing_zeros x) (neg double_bucket_max) double_bucket_max)
            ≡ true
      range a = ground (arith, a)
  decimal-Answers big_decimal last m h =
      by_range-Answers holding c x v big_decimal _ _ _ (λ a. (ends _ _ a).0) (λ a. (ends _ _ a).1)
        (λ l h. condition-Answers holding c x v big_decimal v (λ a. refl))
  decimal-Answers unbound_decimal last m h =
      condition-Answers holding c x v unbound_decimal v (λ a. refl)
  decimal-Answers _ last m h = absurd (omega (arith, h))

  -- What the integer types require of a stored value.
  whole_within :
      (low high : ℤ)
      → admits_whole_in_range (strip_trailing_zeros x) (whole low) (whole high) ≡ true
      → ((strip_trailing_zeros x).scale ≤ℤ pos 0)
        × (is_in_range (to_range (strip_trailing_zeros x) (whole low) (whole high)) ≡ true)
  unfolding admits_whole_in_range
  whole_within low high h = ground (arith, h)

  -- The folded operand of the integer types; they hold whole numbers only.
  bounded-Answers :
      (f : Decimal) (t : DataType) (low high : ℤ)
      → ((strip_trailing_zeros x).scale ≤ℤ pos 0 → want c x f ≡ want c x v)
      → (holding t ≡ true
          → admits_whole_in_range (strip_trailing_zeros x) (whole low) (whole high) ≡ true)
      → Answers holding c (want c x v) x t (
          by_range (to_range f (whole low) (whole high)) t (op_of c) (condition t f (op_of c) ∷ []))
  bounded-Answers f t low high k h =
      Answers-map holding c x t (want c x f) (want c x v) _ (λ a. k (whole_within low high (h a)).0)
        (by_range-Answers holding c x f t (whole low) (whole high) _
          (λ a. (ends (whole low) (whole high) (whole_within low high (h a)).1).0)
          (λ a. (ends (whole low) (whole high) (whole_within low high (h a)).1).1)
          (λ l h. condition-Answers holding c x f t f (λ a. refl)))

  pub int-Answers :
      (f : Decimal) (t : DataType)
      → numeric_family t ≡ 1
      → ((strip_trailing_zeros x).scale ≤ℤ pos 0 → want c x f ≡ want c x v)
      → Answers holding c (want c x v) x t (int_branch f (op_of c) t)
  unfolding int_branch admits_numeric admits_stripped
  int-Answers f unbound_integer h k =
      condition-Answers holding c x v unbound_integer f (λ a. k (leb→le _ _ a))
  int-Answers f integer h k = bounded-Answers f integer _ _ k (λ a. a)
  int-Answers f long h k = bounded-Answers f long _ _ k (λ a. a)
  int-Answers f big_integer h k = bounded-Answers f big_integer _ _ k (λ a. a)
  int-Answers f _ h k = absurd (omega (arith, h))

  pub admits-whole :
      (t : DataType)
      → numeric_family t ≡ 1
      → holding t ≡ true
      → (strip_trailing_zeros x).scale ≤ℤ pos 0
  unfolding admits_numeric admits_stripped
  admits-whole unbound_integer h a = leb→le _ _ a
  admits-whole integer h a = (whole_within _ _ a).0
  admits-whole long h a = (whole_within _ _ a).0
  admits-whole big_integer h a = (whole_within _ _ a).0
  admits-whole _ h a = absurd (omega (arith, h))

  -- What folding gives: the operand, its neighbour, or nothing.
  abbrev pub Folds : Option Decimal → Type 0
  Folds none = (strip_trailing_zeros x).scale ≤ℤ pos 0 → want c x v ≡ is_negative_op (op_of c)
  Folds (some f) = (strip_trailing_zeros x).scale ≤ℤ pos 0 → want c x f ≡ want c x v

  pub fold_to_int-Folds : Last v → Folds (fold_to_int v (op_of c))
  unfolding fold_to_int
  fold_to_int-Folds last = elim (Bool-cases (leb_ℤ v.scale (pos 0))) [
    | inl e ↦ rw e (λ h. refl)
    | inr e ↦ elim (Bool-cases (is_comparing_op (op_of c))) [
      | inl g ↦
          rw (e, g)
            (λ h. by_stripped _ _ (
              grid-want c (strip_trailing_zeros x) v (pos 0) g h (omega (arith, over e))
              ∙ ap (λ a. cmp_result a (op_of c)) (cmp-strip_left x v b)))
      | inr g ↦
          rw (e, g)
            (λ h. by_stripped _ _ (
              fraction-want c (strip_trailing_zeros x) v (pos 0) g h (over e)
                (digit last (over e))))
    ]
  ]
    where
      over : leb_ℤ v.scale (pos 0) ≡ false → pos 0 <ℤ v.scale
      over e = ground arith

      digit : Last v → pos 0 <ℤ v.scale → 0 < magnitude v.unscaled % 10
      digit (inl d) h = d
      digit (inr (inl m)) h = absurd (omega (arith, h, ap pos_part m, ap neg_part m))
      digit (inr (inr z)) h =
          absurd (omega (arith, h, ap (λ d. pos_part d.scale) z, ap (λ d. neg_part d.scale) z))
