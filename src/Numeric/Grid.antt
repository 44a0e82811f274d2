-- ===== src/Numeric/Grid.antt =====
-- The order of decimals in the places where the search relies on it: a stripped value, and a value that is rounded
-- to a grid.
use native.Mathlib.Nat.{mul-le-mul_right}
use cyoda_go_spi.Base.{
  ℕ, ◌+◌, ◌^◌, ◌≡◌, refl, sym, ◌∙◌, arith, inl, inr, true, false, Bool-cases, ◌||◌,
}
use cyoda_go_spi.Base.Int.{
  *ℕ_pos_part, *ℕ_neg_part, ℤ, pos, negsuc, pos_part, cmp_ℤ, ◌*ℕ◌, ◌+ℤ◌, ◌-ℤ◌, ◌≤ℤ◌, ◌<ℤ◌, +ℤ_parts,
  -ℤ_parts, ltb_ℤ,
}
use cyoda_go_spi.Base.Pow.{pow-add}
use cyoda_go_spi.Operators.{
  FilterOp, filter_eq, filter_ne, filter_gt, filter_lt, filter_gte, filter_lte, cmp_result,
}
use cyoda_go_spi.Decimal.{Decimal, ceiling, floor, above, min_int32, is_zero, strip_trailing_zeros}
use cyoda_go_spi.Decimal.Aligned.{at, at-zero, above_exact, *ℕ_assoc}
use cyoda_go_spi.Decimal.Rescale.{is_zero-eq}
use cyoda_go_spi.Decimal.Rounding.{Rounds}
use cyoda_go_spi.Decimal.Strip.{Stripped, strip_trailing_zeros-Stripped}
use cyoda_go_spi.Numeric.{
  is_comparing_op, is_less_op, is_great_op, is_negative_op, rounding_mode_for,
}

-- The six operators that compare.
pub data Comparison : Type 0 where
  equal unequal greater at_least less at_most : Comparison

abbrev pub op_of : Comparison → FilterOp
op_of equal = filter_eq
op_of unequal = filter_ne
op_of greater = filter_gt
op_of at_least = filter_gte
op_of less = filter_lt
op_of at_most = filter_lte

-- A scale that is not below those of three decimals.
abbrev pub common : Decimal → Decimal → Decimal → ℤ
common a b c = pos (pos_part a.scale + pos_part b.scale + pos_part c.scale)

at-Stripped :
    (s : ℤ) (d r : Decimal) → d.scale ≤ℤ s → Stripped d r → (r.scale ≤ℤ s) × (at s r ≡ at s d)
unfolding at
at-Stripped s d r h (k, (a, v), b, c) = (
  lower,
  rw (steps, pow-add 10 k (above s d.scale), sym v)
      (sym (*ℕ_assoc r.unscaled (10 ^ k) (10 ^ above s d.scale))),
)
  where
    lower : r.scale ≤ℤ s
    lower = rw a (omega (arith, h, -ℤ_parts d.scale (pos k)))

    steps : above s r.scale ≡ k + above s d.scale
    steps = rw a (
        omega (
          arith,
          h,
          -ℤ_parts d.scale (pos k),
          above_exact s d.scale h,
          above_exact s (d.scale -ℤ pos k) (omega (arith, h, -ℤ_parts d.scale (pos k))),
        ))

-- A stripped decimal has the coefficient of the decimal, at a scale that is not below 0 or its own.
pub at-strip :
    (s : ℤ) (d : Decimal)
    → min_int32 ≤ℤ d.scale
    → d.scale ≤ℤ s
    → pos 0 ≤ℤ s
    → ((strip_trailing_zeros d).scale ≤ℤ s) × (at s (strip_trailing_zeros d) ≡ at s d)
unfolding strip_trailing_zeros
at-strip s d b h p = elim (Bool-cases (is_zero d)) [
  | inl z ↦ zero_case z
  | inr z ↦ at-Stripped s d _ h (strip_trailing_zeros-Stripped d z b)
]
  where
    zero_case :
        is_zero d ≡ true
        → ((strip_trailing_zeros d).scale ≤ℤ s) × (at s (strip_trailing_zeros d) ≡ at s d)
    zero_case z = rw z (
      p,
      at-zero s (record { unscaled = pos 0; scale = pos 0 }) refl
          ∙ sym (at-zero s d (is_zero-eq d z)),
    )

pub lower-want :
    (c : Comparison) (x v : ℤ)
    → x <ℤ v
    → cmp_result (cmp_ℤ x v) (op_of c) ≡ (is_less_op (op_of c) || is_negative_op (op_of c))
unfolding is_less_op is_negative_op cmp_result
lower-want c x v h = rw below (of_less c)
  where
    below : cmp_ℤ x v ≡ negsuc 0
    below = ground arith

    of_less :
        (c : Comparison)
        → cmp_result (negsuc 0) (op_of c) ≡ (is_less_op (op_of c) || is_negative_op (op_of c))
    of_less equal = refl
    of_less unequal = refl
    of_less greater = refl
    of_less at_least = refl
    of_less less = refl
    of_less at_most = refl

pub upper-want :
    (c : Comparison) (x v : ℤ)
    → v <ℤ x
    → cmp_result (cmp_ℤ x v) (op_of c) ≡ (is_great_op (op_of c) || is_negative_op (op_of c))
unfolding is_great_op is_negative_op cmp_result
upper-want c x v h = rw over (of_more c)
  where
    over : cmp_ℤ x v ≡ pos 1
    over = ground arith

    of_more :
        (c : Comparison)
        → cmp_result (pos 1) (op_of c) ≡ (is_great_op (op_of c) || is_negative_op (op_of c))
    of_more equal = refl
    of_more unequal = refl
    of_more greater = refl
    of_more at_least = refl
    of_more less = refl
    of_more at_most = refl

-- One unit of the grid.
step : (x : ℤ) (r : ℤ) (m : ℕ) → x ≤ℤ r → x *ℕ m ≤ℤ r *ℕ m
step x r m h = omega (
  arith,
  *ℕ_pos_part x m,
  *ℕ_neg_part x m,
  *ℕ_pos_part r m,
  *ℕ_neg_part r m,
  mul-le-mul_right m h,
)

over_floor : (x v r : ℤ) (m : ℕ) → Rounds floor v r m → ltb_ℤ v (x *ℕ m) ≡ ltb_ℤ r x
over_floor x v r m (a, b) = elim (Bool-cases (ltb_ℤ r x)) [
  | inl e ↦ rw e (more e)
  | inr e ↦ rw e (fewer e)
]
  where
    more : ltb_ℤ r x ≡ true → ltb_ℤ v (x *ℕ m) ≡ true
    more e = ground (arith, b, step (r +ℤ pos 1) x m (ground (arith, +ℤ_parts r (pos 1))))

    fewer : ltb_ℤ r x ≡ false → ltb_ℤ v (x *ℕ m) ≡ false
    fewer e = ground (arith, a, step x r m (ground arith))

under_ceiling : (x v r : ℤ) (m : ℕ) → Rounds ceiling v r m → ltb_ℤ (x *ℕ m) v ≡ ltb_ℤ x r
under_ceiling x v r m (a, b) = elim (Bool-cases (ltb_ℤ x r)) [
  | inl e ↦ rw e (fewer e)
  | inr e ↦ rw e (more e)
]
  where
    fewer : ltb_ℤ x r ≡ true → ltb_ℤ (x *ℕ m) v ≡ true
    fewer e = ground (arith, a, step x (r -ℤ pos 1) m (ground (arith, -ℤ_parts r (pos 1))))

    more : ltb_ℤ x r ≡ false → ltb_ℤ (x *ℕ m) v ≡ false
    more e = ground (arith, b, step r x m (ground arith))

-- An operator that orders answers for the rounded value what it answers for the value, where what is
-- compared with it lies on the grid.
pub round-want :
    (c : Comparison) (x v r : ℤ) (m : ℕ)
    → is_comparing_op (op_of c) ≡ true
    → Rounds (rounding_mode_for (op_of c)) v r m
    → cmp_result (cmp_ℤ x r) (op_of c) ≡ cmp_result (cmp_ℤ (x *ℕ m) v) (op_of c)
unfolding is_comparing_op rounding_mode_for cmp_result
round-want equal x v r m h k = absurd (ground (arith, h))
round-want unequal x v r m h k = absurd (ground (arith, h))
round-want greater x v r m h k = ground (arith, over_floor x v r m k)
round-want at_least x v r m h k = ground (arith, under_ceiling x v r m k)
round-want less x v r m h k = ground (arith, under_ceiling x v r m k)
round-want at_most x v r m h k = ground (arith, over_floor x v r m k)
