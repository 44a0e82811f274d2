-- ===== src/Decimal/Aligned.antt =====
-- A decimal at a larger scale: its coefficient there, which is exact.
use native.Mathlib.Nat.{pow-zero, one-le-pow, mul-le-mul_right}
use cyoda_go_spi.Base.{
  ℕ, zero, suc, ◌+◌, ◌-◌, ◌*◌, ◌^◌, ◌≤◌, ◌<◌, ◌≡◌, ◌↔◌, refl, sym, ap, ◌∙◌, arith, inl, inr, true,
  false, not, leb, leb→le, Bool-cases,
}
use cyoda_go_spi.Base.Int.{
  ℤ, pos, negsuc, pos_part, neg_part, sub_ℕ, magnitude, sign, cmp_ℤ, ◌*ℕ◌, ◌≤ℤ◌, ◌<ℤ◌, ◌-ℤ◌,
  int_laws, *ℕ_pos_part, *ℕ_neg_part, -ℤ_parts, eq_of_parts, ltb_ℤ, leb_ℤ, eqb_ℤ,
}
use cyoda_go_spi.Base.Pow.{pow-add}
use cyoda_go_spi.Decimal.{Decimal, above}

pub pow10_pos : (k : ℕ) → 0 < 10 ^ k
pow10_pos k = omega (arith, one-le-pow k 10 (omega arith))

-- Two comparisons with the same outcome.
pub cmp_ℤ_same :
    (a b a' b' : ℤ)
    → (a <ℤ b → a' <ℤ b')
    → (a' <ℤ b' → a <ℤ b)
    → (b <ℤ a → b' <ℤ a')
    → (b' <ℤ a' → b <ℤ a)
    → cmp_ℤ a b ≡ cmp_ℤ a' b'
cmp_ℤ_same a b a' b' p q r s = ground arith

-- The coefficient of `d` at scale `s`.
unfoldable pub at : ℤ → Decimal → ℤ
at s d = d.unscaled *ℕ 10 ^ above s d.scale

pub above_exact : (a b : ℤ) → b ≤ℤ a → pos_part a + neg_part b ≡ pos_part b + neg_part a + above a b
unfolding ◌-ℤ◌
above_exact a b h = ground arith

pub above_self : (a : ℤ) → above a a ≡ 0
unfolding ◌-ℤ◌
above_self a = ground arith

pub ruleset scale_laws = (arith, *ℕ_pos_part, *ℕ_neg_part, eq_of_parts)

lt_of_*ℕ : (a b : ℤ) (m : ℕ) → a *ℕ m <ℤ b *ℕ m → a <ℤ b
lt_of_*ℕ a b m h = elim (Bool-cases (ltb_ℤ a b)) [
  | inl e ↦ less e
  | inr e ↦ absurd (omega (arith, *ℕ_pos_part, *ℕ_neg_part, h, mul-le-mul_right m (other e)))
]
  where
    less : ltb_ℤ a b ≡ true → a <ℤ b
    less e = ground arith

    other : ltb_ℤ a b ≡ false → b ≤ℤ a
    other e = ground arith

lt-*ℕ : (a b : ℤ) (m : ℕ) → 0 < m → a <ℤ b → a *ℕ m <ℤ b *ℕ m
lt-*ℕ a b m p h = omega (arith, p, *ℕ_pos_part, *ℕ_neg_part, mul-le-mul_right m h)

-- The order does not depend on the scale.
pub cmp_ℤ-*ℕ : (a b : ℤ) (m : ℕ) → 0 < m → cmp_ℤ (a *ℕ m) (b *ℕ m) ≡ cmp_ℤ a b
cmp_ℤ-*ℕ a b m p =
    cmp_ℤ_same (a *ℕ m) (b *ℕ m) a b (lt_of_*ℕ a b m) (lt-*ℕ a b m p) (lt_of_*ℕ b a m)
      (lt-*ℕ b a m p)

pub *ℕ_assoc : (a : ℤ) (m n : ℕ) → (a *ℕ m) *ℕ n ≡ a *ℕ (m * n)
*ℕ_assoc a m n =
    omega
      (scale_laws, ap (λ (t : ℕ). t * n) (*ℕ_pos_part a m), ap (λ (t : ℕ). t * n) (*ℕ_neg_part a m))

pub *ℕ_one : (a : ℤ) → a *ℕ 1 ≡ a
*ℕ_one a = omega scale_laws

pub at-at : (s t : ℤ) (d : Decimal) → d.scale ≤ℤ t → t ≤ℤ s → at s d ≡ at t d *ℕ 10 ^ above s t
unfolding at
at-at s t d h k =
    rw (steps, pow-add 10 (above t d.scale) (above s t))
      (sym (*ℕ_assoc d.unscaled (10 ^ above t d.scale) (10 ^ above s t)))
  where
    steps : above s d.scale ≡ above t d.scale + above s t
    steps = omega (
      arith,
      above_exact s d.scale (omega (arith, h, k)),
      above_exact t d.scale h,
      above_exact s t k,
    )

pub cmp-at :
    (s t : ℤ) (d o : Decimal)
    → d.scale ≤ℤ t
    → o.scale ≤ℤ t
    → t ≤ℤ s
    → cmp_ℤ (at s d) (at s o) ≡ cmp_ℤ (at t d) (at t o)
cmp-at s t d o h k l =
    rw (at-at s t d h l, at-at s t o k l)
      (cmp_ℤ-*ℕ (at t d) (at t o) (10 ^ above s t) (pow10_pos (above s t)))

pub at-scale : (t : ℤ) (d : Decimal) → d.scale ≡ t → at t d ≡ d.unscaled
unfolding at
at-scale t d e = rw (e, above_self t, pow-zero 10) (*ℕ_one d.unscaled)

pub magnitude-zero : (a : ℤ) → magnitude a ≡ 0 → a ≡ pos 0
magnitude-zero a h = eq_of_parts a (pos 0) (omega (arith, h))

pub at-zero : (t : ℤ) (d : Decimal) → magnitude d.unscaled ≡ 0 → at t d ≡ pos 0
unfolding at
at-zero t d h = omega (
  scale_laws,
  h,
  ap (λ (x : ℕ). x * 10 ^ above t d.scale) (pos_zero d.unscaled h),
  ap (λ (x : ℕ). x * 10 ^ above t d.scale) (neg_zero d.unscaled h),
)
  where
    pos_zero : (a : ℤ) → magnitude a ≡ 0 → pos_part a ≡ 0
    pos_zero a h = omega (arith, h)

    neg_zero : (a : ℤ) → magnitude a ≡ 0 → neg_part a ≡ 0
    neg_zero a h = omega (arith, h)
