-- ===== src/Numeric/Values.antt =====
-- What a comparison of two decimals answers when one of them is stripped, is rounded, or lies outside the
-- range of a type.
use native.Mathlib.Nat.{pow-suc, mul-le-mul_left}
use cyoda_go_spi.Base.{
  ℕ, zero, suc, ◌%◌, ◌^◌, ◌<◌, ◌≡◌, ◌≢◌, ◌⊎◌, refl, sym, ap, ◌∙◌, arith, inl, inr, true, false,
  Bool-cases, ◌||◌,
}
use cyoda_go_spi.Base.Int.{ℤ, pos, magnitude, cmp_ℤ, ◌*ℕ◌, ◌-ℤ◌, ◌≤ℤ◌, ◌<ℤ◌, -ℤ_parts, ltb_ℤ}
use cyoda_go_spi.Operators.{cmp_result}
use cyoda_go_spi.Decimal.{
  Decimal, above, is_zero, min_int32, max_int32, IsInt32, cmp, strip_trailing_zeros, round_to_scale,
}
use cyoda_go_spi.Decimal.Aligned.{at, at-at, at-scale, above_exact, pow10_pos}
use cyoda_go_spi.Decimal.Order.{cmp-cmp_ℤ}
use cyoda_go_spi.Decimal.Rounding.{round_to_scale-Rounds}
use cyoda_go_spi.Decimal.Strip.{magnitude-*ℕ, strip_trailing_zeros-Stripped}
use cyoda_go_spi.Numeric.{
  whole, is_comparing_op, is_less_op, is_great_op, is_negative_op, rounding_mode_for,
}
use cyoda_go_spi.Numeric.Grid.{
  Comparison, equal, unequal, greater, at_least, less, at_most, op_of, common, at-strip, lower-want,
  upper-want, round-want,
}

-- The stripped value compares as the value.
pub cmp-strip_left :
    (d o : Decimal) → min_int32 ≤ℤ d.scale → cmp (strip_trailing_zeros d) o ≡ cmp d o
cmp-strip_left d o b =
    let s = common d o (whole (pos 0)) in
    let (l, e) = at-strip s d b (omega arith) (omega arith) in
    cmp-cmp_ℤ s (strip_trailing_zeros d) o l (omega arith)
    ∙ ap (λ a. cmp_ℤ a (at s o)) e
    ∙ sym (cmp-cmp_ℤ s d o (omega arith) (omega arith))

pub cmp-strip_right :
    (d o : Decimal) → min_int32 ≤ℤ o.scale → cmp d (strip_trailing_zeros o) ≡ cmp d o
cmp-strip_right d o b =
    let s = common d o (whole (pos 0)) in
    let (l, e) = at-strip s o b (omega arith) (omega arith) in
    cmp-cmp_ℤ s d (strip_trailing_zeros o) (omega arith) l
    ∙ ap (λ a. cmp_ℤ (at s d) a) e
    ∙ sym (cmp-cmp_ℤ s d o (omega arith) (omega arith))

-- The operand lies above what the stored values reach.
pub above-want :
    (c : Comparison) (x v high : Decimal)
    → ltb_ℤ (pos 0) (cmp x high) ≡ false
    → ltb_ℤ (pos 0) (cmp v high) ≡ true
    → cmp_result (cmp x v) (op_of c) ≡ (is_less_op (op_of c) || is_negative_op (op_of c))
above-want c x v high h k =
    ap (λ a. cmp_result a (op_of c)) (cmp-cmp_ℤ s x v (omega arith) (omega arith))
    ∙ lower-want c (at s x) (at s v) (smaller (at s x) (at s v) (at s high) inside outside)
  where
    s : ℤ
    s = common x v high

    inside : ltb_ℤ (pos 0) (cmp_ℤ (at s x) (at s high)) ≡ false
    inside = sym (ap (λ a. ltb_ℤ (pos 0) a) (cmp-cmp_ℤ s x high (omega arith) (omega arith))) ∙ h

    outside : ltb_ℤ (pos 0) (cmp_ℤ (at s v) (at s high)) ≡ true
    outside = sym (ap (λ a. ltb_ℤ (pos 0) a) (cmp-cmp_ℤ s v high (omega arith) (omega arith))) ∙ k

    smaller :
        (a b e : ℤ) → ltb_ℤ (pos 0) (cmp_ℤ a e) ≡ false → ltb_ℤ (pos 0) (cmp_ℤ b e) ≡ true → a <ℤ b
    smaller a b e h k = ground arith

-- The operand lies below what the stored values reach.
pub below-want :
    (c : Comparison) (x v low : Decimal)
    → ltb_ℤ (cmp x low) (pos 0) ≡ false
    → ltb_ℤ (cmp v low) (pos 0) ≡ true
    → cmp_result (cmp x v) (op_of c) ≡ (is_great_op (op_of c) || is_negative_op (op_of c))
below-want c x v low h k =
    ap (λ a. cmp_result a (op_of c)) (cmp-cmp_ℤ s x v (omega arith) (omega arith))
    ∙ upper-want c (at s x) (at s v) (larger (at s x) (at s v) (at s low) inside outside)
  where
    s : ℤ
    s = common x v low

    inside : ltb_ℤ (cmp_ℤ (at s x) (at s low)) (pos 0) ≡ false
    inside = sym (ap (λ a. ltb_ℤ a (pos 0)) (cmp-cmp_ℤ s x low (omega arith) (omega arith))) ∙ h

    outside : ltb_ℤ (cmp_ℤ (at s v) (at s low)) (pos 0) ≡ true
    outside = sym (ap (λ a. ltb_ℤ a (pos 0)) (cmp-cmp_ℤ s v low (omega arith) (omega arith))) ∙ k

    larger :
        (a b e : ℤ) → ltb_ℤ (cmp_ℤ a e) (pos 0) ≡ false → ltb_ℤ (cmp_ℤ b e) (pos 0) ≡ true → b <ℤ a
    larger a b e h k = ground arith

-- Both at the scale of the operand, for a value on a coarser grid.
cmp_on_grid :
    (x v : Decimal) (t : ℤ)
    → x.scale ≤ℤ t
    → t ≤ℤ v.scale
    → cmp x v ≡ cmp_ℤ (at t x *ℕ 10 ^ above v.scale t) v.unscaled
cmp_on_grid x v t h k =
    cmp-cmp_ℤ v.scale x v (omega (arith, h, k)) (omega arith)
    ∙ ap (λ a. cmp_ℤ a (at v.scale v)) (at-at v.scale t x h k)
    ∙ ap (λ a. cmp_ℤ (at t x *ℕ 10 ^ above v.scale t) a) (at-scale v.scale v refl)

-- A value on the grid compares with the rounded operand as with the operand.
pub grid-want :
    (c : Comparison) (x v : Decimal) (t : ℤ)
    → is_comparing_op (op_of c) ≡ true
    → x.scale ≤ℤ t
    → t ≤ℤ v.scale
    → cmp_result (cmp x (round_to_scale v t (rounding_mode_for (op_of c)))) (op_of c)
      ≡ cmp_result (cmp x v) (op_of c)
grid-want c x v t g h k =
    let (e, rounds) = round_to_scale-Rounds v t (rounding_mode_for (op_of c)) k in
    let r = round_to_scale v t (rounding_mode_for (op_of c)) in
    ap (λ a. cmp_result a (op_of c))
      (cmp-cmp_ℤ t x r h (rw e (omega arith)) ∙ ap (λ a. cmp_ℤ (at t x) a) (at-scale t r e))
    ∙ round-want c (at t x) v.unscaled r.unscaled (10 ^ above v.scale t) g rounds
    ∙ sym (ap (λ a. cmp_result a (op_of c)) (cmp_on_grid x v t h k))

differ-want :
    (c : Comparison) (x v : ℤ)
    → is_comparing_op (op_of c) ≡ false
    → magnitude x ≢ magnitude v
    → cmp_result (cmp_ℤ x v) (op_of c) ≡ is_negative_op (op_of c)
unfolding is_comparing_op is_negative_op cmp_result
differ-want equal x v h k = ground (arith, k)
differ-want unequal x v h k = ground (arith, k)
differ-want greater x v h k = absurd (ground (arith, h))
differ-want at_least x v h k = absurd (ground (arith, h))
differ-want less x v h k = absurd (ground (arith, h))
differ-want at_most x v h k = absurd (ground (arith, h))

-- A value on a coarser grid differs from an operand whose last digit is not zero.
pub fraction-want :
    (c : Comparison) (x v : Decimal) (t : ℤ)
    → is_comparing_op (op_of c) ≡ false
    → x.scale ≤ℤ t
    → t <ℤ v.scale
    → 0 < magnitude v.unscaled % 10
    → cmp_result (cmp x v) (op_of c) ≡ is_negative_op (op_of c)
fraction-want c x v t g h k l =
    ap (λ a. cmp_result a (op_of c)) (cmp_on_grid x v t h (omega (arith, k)))
    ∙ differ-want c (at t x *ℕ 10 ^ above v.scale t) v.unscaled g
        (λ e. absurd (omega (arith, l, ends_in_zero (above v.scale t) places, e)))
  where
    places : 0 < above v.scale t
    places = omega (arith, k, above_exact v.scale t (omega (arith, k)))

    ends_in_zero : (n : ℕ) → 0 < n → magnitude (at t x *ℕ 10 ^ n) % 10 ≡ 0
    ends_in_zero zero p = absurd (omega (arith, p))
    ends_in_zero (suc n) p = rw (magnitude-*ℕ (at t x) (10 ^ suc n), pow-suc 10 n) (omega arith)

-- So does a smaller coefficient on a finer grid.
pub small-want :
    (c : Comparison) (x v : Decimal)
    → is_comparing_op (op_of c) ≡ false
    → v.scale ≤ℤ x.scale
    → magnitude x.unscaled < magnitude v.unscaled
    → cmp_result (cmp x v) (op_of c) ≡ is_negative_op (op_of c)
unfolding at
small-want c x v g h l =
    ap (λ a. cmp_result a (op_of c))
      (cmp-cmp_ℤ x.scale x v (omega arith) h
        ∙ ap (λ a. cmp_ℤ a (at x.scale v)) (at-scale x.scale x refl))
    ∙ differ-want c x.unscaled (at x.scale v) g (λ e. absurd (
        omega (
          arith,
          l,
          e,
          magnitude-*ℕ v.unscaled (10 ^ above x.scale v.scale),
          mul-le-mul_left (magnitude v.unscaled) (pow10_pos (above x.scale v.scale)),
        )))

-- The last digit of a stripped operand.
abbrev pub Last : Decimal → Type 0
Last v = (0 < magnitude v.unscaled % 10) ⊎ ((v.scale ≡ min_int32) ⊎ (v ≡ whole (pos 0)))

pub strip-Last : (d : Decimal) → min_int32 ≤ℤ d.scale → Last (strip_trailing_zeros d)
unfolding strip_trailing_zeros
strip-Last d b = elim (Bool-cases (is_zero d)) [
  | inl z ↦ inr (inr (rw z refl))
  | inr z ↦ let (k, e, c, last) = strip_trailing_zeros-Stripped d z b in other _ last
]
  where
    other : (r : Decimal) → (0 < magnitude r.unscaled % 10) ⊎ (r.scale ≡ min_int32) → Last r
    other r (inl l) = inl l
    other r (inr l) = inr (inl l)

pub strip-IsInt32 : (d : Decimal) → IsInt32 d.scale → IsInt32 (strip_trailing_zeros d).scale
unfolding strip_trailing_zeros
strip-IsInt32 d (b, m) = elim (Bool-cases (is_zero d)) [
  | inl z ↦ rw z (omega arith, omega arith)
  | inr z ↦
      let (k, (e, v), least, last) = strip_trailing_zeros-Stripped d z b in (least, lower _ k e)
]
  where
    lower : (r : ℤ) (k : ℕ) → r ≡ d.scale -ℤ pos k → r ≤ℤ max_int32
    lower r k e = rw e (omega (arith, m, -ℤ_parts d.scale (pos k)))
