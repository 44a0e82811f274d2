-- ===== src/Numeric/Imprecise.antt =====
-- Operands of the DOUBLE bucket: one that is inside its range can be rounded without a wrap of its scale, and
-- one that needs rounding is none of the values of the bucket.
use native.Mathlib.Nat.{pow-le-pow_right, mul-le-mul_right}
use cyoda_go_spi.Base.{
  ℕ, ◌+◌, ◌-◌, ◌^◌, ◌≤◌, ◌<◌, ◌≡◌, refl, sym, ap, ◌∙◌, arith, inl, inr, true, false, leb, leb→le,
  ltb→lt, Bool-cases,
}
use cyoda_go_spi.Base.Int.{
  *ℕ_pos_part, *ℕ_neg_part, ℤ, pos, negsuc, pos_part, neg_part, magnitude, cmp_ℤ, ◌-ℤ◌, ◌≤ℤ◌, ◌<ℤ◌,
  -ℤ_parts, ltb_ℤ,
}
use cyoda_go_spi.Base.Pow.{pow-add}
use cyoda_go_spi.Operators.{cmp_result}
use cyoda_go_spi.Decimal.{Decimal, above, cmp, min_int32, max_int32, IsInt32, precision}
use cyoda_go_spi.Decimal.Aligned.{at, above_exact, pow10_pos}
use cyoda_go_spi.Decimal.Order.{cmp-cmp_ℤ}
use cyoda_go_spi.Decimal.Strip.{magnitude-*ℕ}
use cyoda_go_spi.Decimal.Exact.{le-precision}
use cyoda_go_spi.Numeric.{
  neg, double_bucket_max, is_negative_op, whole, is_comparing_op, is_double_bucket_precise,
}
use cyoda_go_spi.Numeric.Grid.{Comparison, op_of}
use cyoda_go_spi.Numeric.Double.{below}
use cyoda_go_spi.Numeric.Values.{fraction-want, small-want, Last}

-- At a scale `s`, the ends of the range have 15 digits and the zeros of the exponent.
at-ends :
    (n : ℕ)
    → (pos_part (at (pos n) double_bucket_max) < 10 ^ (n + 293))
      × (neg_part (at (pos n) (neg double_bucket_max)) < 10 ^ (n + 293))
unfolding at ◌-ℤ◌
at-ends n =
    rw (exponent, zeros, pow-add 10 15 (n + 278))
      (
        omega (arith, *ℕ_pos_part (pos 999999999999999) (10 ^ (n + 278)), pow10_pos (n + 278)),
        omega (arith, *ℕ_neg_part (negsuc 999999999999998) (10 ^ (n + 278)), pow10_pos (n + 278)),
      )
  where
    zeros : above (pos n) (negsuc 277) ≡ n + 278
    zeros = ground arith

    exponent : n + 293 ≡ 15 + (n + 278)
    exponent = omega arith

-- An operand inside the range of DOUBLE: its scale, once it has lost the digits beyond the 15th.
pub in_range-IsInt32 :
    (v : Decimal)
    → v.scale ≤ℤ max_int32
    → ltb_ℤ (cmp v (neg double_bucket_max)) (pos 0) ≡ false
    → ltb_ℤ (pos 0) (cmp v double_bucket_max) ≡ false
    → 15 < precision v
    → IsInt32 (v.scale -ℤ pos (precision v - 15))
unfolding at
in_range-IsInt32 v m h k p = (
  omega (arith, far, p, -ℤ_parts v.scale (pos (precision v - 15))),
  omega (arith, m, -ℤ_parts v.scale (pos (precision v - 15))),
)
  where
    n : ℕ
    n = pos_part v.scale

    low : cmp v (neg double_bucket_max) ≡ cmp_ℤ (at (pos n) v) (at (pos n) (neg double_bucket_max))
    low = cmp-cmp_ℤ (pos n) v (neg double_bucket_max) (omega arith) (omega arith)

    high : cmp v double_bucket_max ≡ cmp_ℤ (at (pos n) v) (at (pos n) double_bucket_max)
    high = cmp-cmp_ℤ (pos n) v double_bucket_max (omega arith) (omega arith)

    within :
        (a l u : ℤ) (e : ℕ)
        → ltb_ℤ (cmp_ℤ a l) (pos 0) ≡ false
        → ltb_ℤ (pos 0) (cmp_ℤ a u) ≡ false
        → pos_part u < e
        → neg_part l < e
        → magnitude a < e
    within a l u e h k p q = ground arith

    small : magnitude (at (pos n) v) < 10 ^ (n + 293)
    small =
        within (at (pos n) v) (at (pos n) (neg double_bucket_max)) (at (pos n) double_bucket_max)
          (10 ^ (n + 293)) (sym (ap (λ a. ltb_ℤ a (pos 0)) low) ∙ h)
          (sym (ap (λ a. ltb_ℤ (pos 0) a) high) ∙ k) (at-ends n).0 (at-ends n).1

    size : 10 ^ (precision v - 1 + above (pos n) v.scale) ≤ magnitude (at (pos n) v)
    size =
        rw
          (
            pow-add 10 (precision v - 1) (above (pos n) v.scale),
            magnitude-*ℕ v.unscaled (10 ^ above (pos n) v.scale),
          )
          (mul-le-mul_right (10 ^ above (pos n) v.scale) (le-precision v (omega (arith, p))))

    exponents : precision v - 1 + above (pos n) v.scale < n + 293
    exponents = elim (Bool-cases (leb (n + 293) (precision v - 1 + above (pos n) v.scale))) [
      | inl e ↦
          absurd
            (omega (arith, small, size, pow-le-pow_right {n = 10} (omega arith) (leb→le _ _ e)))
      | inr e ↦ ground arith
    ]

    far : precision v + neg_part v.scale < 294 + pos_part v.scale
    far = omega (arith, exponents, above_exact (pos n) v.scale (omega arith))

zero_is_precise : is_double_bucket_precise (whole (pos 0)) ≡ true
unfolding is_double_bucket_precise precision
zero_is_precise = refl

-- A value of the bucket differs from a stripped operand that needs rounding.
pub imprecise-want :
    (c : Comparison) (x v : Decimal)
    → is_comparing_op (op_of c) ≡ false
    → min_int32 ≤ℤ x.scale
    → Last v
    → is_double_bucket_precise x ≡ true
    → is_double_bucket_precise v ≡ false
    → cmp_result (cmp x v) (op_of c) ≡ is_negative_op (op_of c)
unfolding is_double_bucket_precise
imprecise-want c x v g b last h k = elim (Bool-cases (ltb_ℤ x.scale v.scale)) [
  | inl e ↦ coarser (ltb→lt _ _ e) last
  | inr e ↦ small-want c x v g (apart e) (smaller (apart e))
]
  where
    apart : ltb_ℤ x.scale v.scale ≡ false → v.scale ≤ℤ x.scale
    apart e = ground arith

    clash : true ≡ false → ⊥
    clash e = absurd (ground (arith, e))

    zero_precise : v ≡ whole (pos 0) → ⊥
    zero_precise z = clash (sym zero_is_precise ∙ ap is_double_bucket_precise (sym z) ∙ k)

    coarser :
        x.scale <ℤ v.scale → Last v → cmp_result (cmp x v) (op_of c) ≡ is_negative_op (op_of c)
    coarser l (inl d) = fraction-want c x v x.scale g (omega arith) l d
    coarser l (inr (inl m)) = absurd (omega (arith, b, l, ap pos_part m, ap neg_part m))
    coarser l (inr (inr z)) = absurd (zero_precise z)

    many_digits : v.scale ≤ℤ x.scale → 15 < precision v
    many_digits l = ground (arith, h, k)

    fifteen : 15 < precision v → 15 ≤ precision v - 1
    fifteen l = omega (arith, l)

    smaller : v.scale ≤ℤ x.scale → magnitude x.unscaled < magnitude v.unscaled
    smaller l = omega (
      arith,
      below x {p = 15} (ground (arith, h)),
      le-precision v (omega (arith, many_digits l)),
      pow-le-pow_right {n = 10} (omega arith) (fifteen (many_digits l)),
    )
