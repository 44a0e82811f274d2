-- ===== src/Numeric/Double.antt =====
-- The rounding of an operand for the DOUBLE bucket: against a value of at most 15 digits and a scale of
-- at most 292, the rounded operand answers what the operand answers.
use native.Mathlib.Nat.{
  pow-le-pow_right, mul-le-mul_right, lt_of_mul-lt-mul_right, le_of_mul-le-mul_right,
}
use cyoda_go_spi.Base.{
  ◌⊎◌, Bool, ℕ, suc, ◌+◌, ◌-◌, ◌*◌, ◌^◌, ◌≤◌, ◌<◌, ◌≡◌, refl, sym, ap, ◌∙◌, arith, inl, inr, true,
  false, leb, ltb, ltb→lt, Bool-cases, if◌then◌else◌,
}
use cyoda_go_spi.Base.Int.{
  *ℕ_pos_part, *ℕ_neg_part, ℤ, pos, negsuc, pos_part, neg_part, magnitude, cmp_ℤ, ◌*ℕ◌, ◌+ℤ◌, ◌-ℤ◌,
  ◌≤ℤ◌, ◌<ℤ◌, +ℤ_parts, -ℤ_parts, ltb_ℤ,
}
use cyoda_go_spi.Base.Pow.{pow-add}
use cyoda_go_spi.Operators.{cmp_result}
use cyoda_go_spi.Decimal.{
  Decimal, RoundingMode, ceiling, floor, above, cmp, IsInt32, wrap_int32, precision, must,
  set_scale, round_to_scale, round_to_precision,
}
use cyoda_go_spi.Decimal.Aligned.{at, above_exact, pow10_pos}
use cyoda_go_spi.Decimal.Order.{cmp-cmp_ℤ}
use cyoda_go_spi.Decimal.Rounding.{Rounds, round_to_scale-Rounds}
use cyoda_go_spi.Decimal.Strip.{magnitude-*ℕ}
use cyoda_go_spi.Decimal.Exact.{lt-precision, le-precision, cmp-must, wrap-IsInt32}
use cyoda_go_spi.Numeric.{
  is_comparing_op, rounding_mode_for, is_double_bucket_precise, clamp_scale, round_double_imprecise,
}
use cyoda_go_spi.Numeric.Grid.{Comparison, op_of, common}
use cyoda_go_spi.Numeric.Values.{grid-want}

-- Two integers of one sign, of at least the sizes `b` and `e`.
abbrev pub Alike : ℤ → ℕ → ℤ → ℕ → Type 0
Alike y b z e = (b ≤ pos_part y) × (e ≤ pos_part z) ⊎ (b ≤ neg_part y) × (e ≤ neg_part z)

-- They compare alike with one that is smaller.
cmp_small : (x y z : ℤ) (b : ℕ) → magnitude x < b → Alike y b z b → cmp_ℤ x y ≡ cmp_ℤ x z
cmp_small x y z b h (inl (k, l)) = ground arith
cmp_small x y z b h (inr (k, l)) = ground arith

-- Rounding keeps the sign and the size, in units of the grid.
round_Alike :
    (mode : RoundingMode) (v r : ℤ) (b m : ℕ)
    → 0 < b
    → 0 < m
    → Rounds mode v r m
    → b * m ≤ magnitude v
    → Alike r b v (b * m)
round_Alike floor (pos n) r b m p q (k, l) h = inl (
  last r (lt_of_mul-lt-mul_right m (omega (arith, l, h, *ℕ_pos_part (r +ℤ pos 1) m))),
  omega (arith, h),
)
  where
    last : (r : ℤ) → b < pos_part (r +ℤ pos 1) → b ≤ pos_part r
    last r h = ground (arith, +ℤ_parts r (pos 1))
round_Alike floor (negsuc n) r b m p q (k, l) h =
    inr (le_of_mul-le-mul_right (omega (arith, k, h, *ℕ_neg_part r m)) q, omega (arith, h))
round_Alike ceiling (pos n) r b m p q (k, l) h =
    inl (le_of_mul-le-mul_right (omega (arith, l, h, *ℕ_pos_part r m)) q, omega (arith, h))
round_Alike ceiling (negsuc n) r b m p q (k, l) h = inr (
  last r (lt_of_mul-lt-mul_right m (omega (arith, k, h, *ℕ_neg_part (r -ℤ pos 1) m))),
  omega (arith, h),
)
  where
    last : (r : ℤ) → b < neg_part (r -ℤ pos 1) → b ≤ neg_part r
    last r h = ground (arith, -ℤ_parts r (pos 1))

-- Two integers at larger scales.
Alike-*ℕ :
    (y z : ℤ) (b e k l n : ℕ) → n ≤ b * k → n ≤ e * l → Alike y b z e → Alike (y *ℕ k) n (z *ℕ l) n
Alike-*ℕ y z b e k l n h i (inl (p, q)) = inl (
  omega (arith, h, *ℕ_pos_part y k, mul-le-mul_right k p),
  omega (arith, i, *ℕ_pos_part z l, mul-le-mul_right l q),
)
Alike-*ℕ y z b e k l n h i (inr (p, q)) = inr (
  omega (arith, h, *ℕ_neg_part y k, mul-le-mul_right k p),
  omega (arith, i, *ℕ_neg_part z l, mul-le-mul_right l q),
)

pub below : (x : Decimal) {p : ℕ} → precision x ≤ p → suc (magnitude x.unscaled) ≤ 10 ^ p
below x h = omega (arith, lt-precision x, pow-le-pow_right {n = 10} (omega arith) h)

-- A value on a finer grid than the rounded operand is smaller than both: it has fewer than 15 digits
-- on that grid, and they have at least 15.
finer :
    (x v : Decimal) (t : ℤ) (mode : RoundingMode) (p : ℕ)
    → precision x ≤ suc p
    → suc p < precision v
    → t ≡ v.scale -ℤ pos (precision v - suc p)
    → t <ℤ x.scale
    → cmp x (round_to_scale v t mode) ≡ cmp x v
unfolding at
finer x v t mode p hx hv e l =
    cmp-cmp_ℤ s x r (omega arith) (rw rs low)
    ∙ cmp_small (at s x) (at s r) (at s v) (10 ^ (p + above s t)) small alike
    ∙ sym (cmp-cmp_ℤ s x v (omega arith) (omega arith))
  where
    s : ℤ
    s = common x v v

    r : Decimal
    r = round_to_scale v t mode

    coarse : t ≤ℤ v.scale
    coarse =
        omega (arith, l, -ℤ_parts v.scale (pos (precision v - suc p)), ap pos_part e, ap neg_part e)

    rs : r.scale ≡ t
    rs = (round_to_scale-Rounds v t mode coarse).0

    low : t ≤ℤ s
    low = omega (arith, coarse)

    drop : above v.scale t ≡ precision v - suc p
    drop = omega (
      arith,
      above_exact v.scale t coarse,
      -ℤ_parts v.scale (pos (precision v - suc p)),
      ap pos_part e,
      ap neg_part e,
    )

    power : 10 ^ (suc p + above s x.scale) ≤ 10 ^ (p + above s t)
    power =
        pow-le-pow_right {n = 10} (omega arith)
          (omega (arith, l, above_exact s t low, above_exact s x.scale (omega arith)))

    small : magnitude (at s x) < 10 ^ (p + above s t)
    small = rw (magnitude-*ℕ x.unscaled (10 ^ above s x.scale)) (
        omega (
          arith,
          power,
          pow-add 10 (suc p) (above s x.scale),
          pow10_pos (above s x.scale),
          mul-le-mul_right (10 ^ above s x.scale) (below x hx),
        ))

    exponents : p + above v.scale t ≡ precision v - 1
    exponents = omega (arith, drop, hv)

    size : 10 ^ p * 10 ^ above v.scale t ≤ magnitude v.unscaled
    size = rw (sym (pow-add 10 p (above v.scale t)), exponents) (le-precision v (omega (arith, hv)))

    steps : p + above s t ≡ p + above v.scale t + above s v.scale
    steps = omega (
      arith,
      above_exact s t low,
      above_exact v.scale t coarse,
      above_exact s v.scale (omega arith),
    )

    alike : Alike (at s r) (10 ^ (p + above s t)) (at s v) (10 ^ (p + above s t))
    alike =
        Alike-*ℕ r.unscaled v.unscaled (10 ^ p) (10 ^ p * 10 ^ above v.scale t) _ _ _
          (rw (rs, pow-add 10 p (above s t)) (omega arith))
          (rw
            (
              steps,
              pow-add 10 (p + above v.scale t) (above s v.scale),
              pow-add 10 p (above v.scale t),
            )
            (omega arith))
          (round_Alike mode v.unscaled r.unscaled (10 ^ p) (10 ^ above v.scale t) (pow10_pos p)
            (pow10_pos (above v.scale t)) (round_to_scale-Rounds v t mode coarse).1 size)

-- The neighbour of the operand among the decimals of `suc p` digits.
precision-want :
    (c : Comparison) (x v : Decimal) (p : ℕ)
    → is_comparing_op (op_of c) ≡ true
    → precision x ≤ suc p
    → (suc p < precision v → IsInt32 (v.scale -ℤ pos (precision v - suc p)))
    → cmp_result (cmp x (round_to_precision v (suc p) (rounding_mode_for (op_of c)))) (op_of c)
      ≡ cmp_result (cmp x v) (op_of c)
unfolding round_to_precision
precision-want c x v p g h w = elim (Bool-cases (leb (precision v) (suc p))) [
  | inl e ↦ rw e refl
  | inr e ↦ rw (e, wrap-IsInt32 t (w (fewer e))) (carry _ ∙ rounded (fewer e))
]
  where
    t : ℤ
    t = v.scale -ℤ pos (precision v - suc p)

    r : Decimal
    r = round_to_scale v t (rounding_mode_for (op_of c))

    fewer : leb (precision v) (suc p) ≡ false → suc p < precision v
    fewer e = ground arith

    falls : suc p < precision v → t ≤ℤ v.scale
    falls l = omega (arith, -ℤ_parts v.scale (pos (precision v - suc p)))

    carry :
        (b : Bool)
        → cmp_result
            (cmp x (if b then must r (set_scale r (wrap_int32 (r.scale -ℤ pos 1))) else r))
            (op_of c)
          ≡ cmp_result (cmp x r) (op_of c)
    carry true = ap (λ a. cmp_result a (op_of c)) (cmp-must x r (wrap_int32 (r.scale -ℤ pos 1)))
    carry false = refl

    apart : ltb_ℤ t x.scale ≡ false → x.scale ≤ℤ t
    apart f = ground arith

    rounded : suc p < precision v → cmp_result (cmp x r) (op_of c) ≡ cmp_result (cmp x v) (op_of c)
    rounded l = elim (Bool-cases (ltb_ℤ t x.scale)) [
      | inl f ↦
          ap (λ a. cmp_result a (op_of c))
            (finer x v t (rounding_mode_for (op_of c)) p h l refl (ltb→lt _ _ f))
      | inr f ↦ grid-want c x v t g (apart f) (falls l)
    ]

clamp-want :
    (c : Comparison) (x v : Decimal)
    → is_comparing_op (op_of c) ≡ true
    → x.scale ≤ℤ pos 292
    → cmp_result (cmp x (clamp_scale v (rounding_mode_for (op_of c)))) (op_of c)
      ≡ cmp_result (cmp x v) (op_of c)
unfolding clamp_scale
clamp-want c x v g h = elim (Bool-cases (ltb_ℤ (pos 292) v.scale)) [
  | inl e ↦ rw e (grid-want c x v (pos 292) g h (falls e))
  | inr e ↦ rw e refl
]
  where
    falls : ltb_ℤ (pos 292) v.scale ≡ true → pos 292 ≤ℤ v.scale
    falls e = ground arith

-- The rounded operand of the bucket.
pub double-want :
    (c : Comparison) (x v : Decimal)
    → is_comparing_op (op_of c) ≡ true
    → is_double_bucket_precise x ≡ true
    → (15 < precision v → IsInt32 (v.scale -ℤ pos (precision v - 15)))
    → cmp_result (cmp x (round_double_imprecise v (rounding_mode_for (op_of c)))) (op_of c)
      ≡ cmp_result (cmp x v) (op_of c)
unfolding round_double_imprecise is_double_bucket_precise
double-want c x v g h w =
    elim (Bool-cases (ltb 15 (precision (clamp_scale v (rounding_mode_for (op_of c)))))) [
      | inl e ↦ rw e (precision-want c x v 14 g digits_of w)
      | inr e ↦ rw e (clamp-want c x v g scale_of)
    ]
  where
    digits_of : precision x ≤ 15
    digits_of = ground (arith, h)

    scale_of : x.scale ≤ℤ pos 292
    scale_of = ground (arith, h)
