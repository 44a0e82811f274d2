-- ===== src/Decimal/Exact.antt =====
-- `SetScale`: exact where it gives a result, and an error just where the new scale loses digits.
use native.Mathlib.Nat.{pow-zero, pow-le-pow_right, mod-eq_of_lt}
use cyoda_go_spi.Base.{
  ℕ, leb→le, ◌+◌, ◌-◌, ◌%◌, ◌^◌, ◌≤◌, ◌<◌, ◌≡◌, ◌≢◌, refl, sym, ap, ◌∙◌, arith, inl, inr, true,
  false, ltb, ltb→lt, ◌==◌, ==_iff, Bool-cases, Option, none, some,
}
use cyoda_go_spi.Base.Int.{
  ℤ, pos, negsuc, pos_part, magnitude, cmp_ℤ, ◌*ℕ◌, ◌-ℤ◌, ◌≤ℤ◌, ◌<ℤ◌, ltb_ℤ, leb_ℤ, eqb_ℤ,
  eq_of_parts,
}
use cyoda_go_spi.Decimal.{
  Decimal, above, is_zero, precision, reduce, set_scale, must, cmp, wrap_int32, IsInt32,
}
use cyoda_go_spi.Decimal.Digits.{lt-digits, digits-le}
use cyoda_go_spi.Decimal.Aligned.{at, at-at, at-zero, *ℕ_one, pow10_pos}
use cyoda_go_spi.Decimal.Rescale.{set_scale-up, is_zero-eq, is_zero-ne}
use cyoda_go_spi.Decimal.Order.{precision-digits, cmp-cmp_ℤ}
use cyoda_go_spi.Decimal.Rounding.{quo-exact}

pub lt-precision : (d : Decimal) → magnitude d.unscaled < 10 ^ precision d
lt-precision d = elim (Bool-cases (is_zero d)) [
  | inl z ↦ omega (arith, is_zero-eq d z, pow10_pos (precision d))
  | inr z ↦ rw (precision-digits d z) (lt-digits (magnitude d.unscaled))
]

precision_one : (d : Decimal) → is_zero d ≡ true → precision d ≡ 1
unfolding precision
precision_one d h = rw h

pub le-precision : (d : Decimal) → 1 < precision d → 10 ^ (precision d - 1) ≤ magnitude d.unscaled
le-precision d h = elim (Bool-cases (is_zero d)) [
  | inl z ↦ absurd (omega (arith, h, precision_one d z))
  | inr z ↦ rw (precision-digits d z) (digits-le (magnitude d.unscaled) (is_zero-ne d z))
]

above_none : (a b : ℤ) → a ≤ℤ b → above a b ≡ 0
unfolding ◌-ℤ◌
above_none a b h = ground arith

-- A power for a scale that does not rise.
unit : (a b c : ℤ) → b ≤ℤ c → a *ℕ 10 ^ above b c ≡ a
unit a b c h = rw (above_none b c h, pow-zero 10) (*ℕ_one a)

-- A result at scale `n` of the same value: of the two powers one is 1. No result: digits would be
-- lost.
abbrev pub Rescaled : Decimal → ℤ → Option Decimal → Type 0
Rescaled d n none = (n <ℤ d.scale) × (magnitude d.unscaled % 10 ^ above d.scale n ≢ 0)
Rescaled d n (some r) =
    (r.scale ≡ n) × (r.unscaled *ℕ 10 ^ above d.scale n ≡ d.unscaled *ℕ 10 ^ above n d.scale)

-- Where the scale does not fall.
up-Rescaled : (d : Decimal) (n : ℤ) → d.scale ≤ℤ n → Rescaled d n (set_scale d n)
unfolding at
up-Rescaled d n h =
    rw (set_scale-up d n h, no_step)
      (refl, rw (pow-zero 10) (*ℕ_one (d.unscaled *ℕ 10 ^ above n d.scale)))
  where
    no_step : above d.scale n ≡ 0
    no_step = above_none d.scale n h

reduce-Rescaled :
    (d : Decimal) (n : ℤ) → n <ℤ d.scale → Rescaled d n (reduce d n (10 ^ above d.scale n))
unfolding reduce
reduce-Rescaled d n h = elim (Bool-cases (magnitude d.unscaled % 10 ^ above d.scale n == 0)) [
  | inl e ↦
      rw (e, no_step, pow-zero 10)
        (
          refl,
          quo-exact d.unscaled (10 ^ above d.scale n) (pow10_pos (above d.scale n))
                ((==_iff _ 0).0 e)
              ∙ sym (*ℕ_one d.unscaled),
        )
  | inr e ↦ rw e (h, λ z. ground (arith, e, z))
]
  where
    no_step : above n d.scale ≡ 0
    no_step = above_none n d.scale (omega (arith, h))

-- A coefficient of fewer digits than are dropped is no multiple.
too_few :
    (d : Decimal) (k : ℕ)
    → ltb (precision d) k ≡ true
    → is_zero d ≡ false
    → magnitude d.unscaled % 10 ^ k ≢ 0
too_few d k f z = λ m. absurd (omega (arith, is_zero-ne d z, sym (mod-eq_of_lt small) ∙ m))
  where
    fewer : precision d ≤ k
    fewer = omega (arith, ltb→lt (precision d) k f)

    small : magnitude d.unscaled < 10 ^ k
    small = omega (arith, lt-precision d, pow-le-pow_right {n = 10} (omega arith) fewer)

down-Rescaled : (d : Decimal) (n : ℤ) → n <ℤ d.scale → Rescaled d n (set_scale d n)
unfolding set_scale at
down-Rescaled d n h = elim (Bool-cases (is_zero d)) [
  | inl z ↦
      rw (differ, z)
        (
          refl,
          at-zero d.scale (record { unscaled = pos 0; scale = n }) refl
              ∙ sym (at-zero n d (is_zero-eq d z)),
        )
  | inr z ↦ elim (Bool-cases (ltb (precision d) (above d.scale n))) [
    | inl f ↦ rw (differ, z, falls, f) (h, too_few d (above d.scale n) f z)
    | inr f ↦ rw (differ, z, falls, f) (reduce-Rescaled d n h)
  ]
]
  where
    differ : eqb_ℤ d.scale n ≡ false
    differ = ground arith

    falls : ltb_ℤ d.scale n ≡ false
    falls = ground arith

-- `set_scale` gives a decimal at the new scale of the same value, or, where the scale falls, an error
-- just if the coefficient is no multiple of the power of ten that is dropped.
pub set_scale-Rescaled : (d : Decimal) (n : ℤ) → Rescaled d n (set_scale d n)
set_scale-Rescaled d n = elim (Bool-cases (leb_ℤ d.scale n)) [
  | inl e ↦ up-Rescaled d n (leb→le _ _ e)
  | inr e ↦ down-Rescaled d n (falls e)
]
  where
    falls : leb_ℤ d.scale n ≡ false → n <ℤ d.scale
    falls e = ground arith

-- The same value at every scale that is not below the two.
at-Rescaled :
    (s : ℤ) (d r : Decimal) (n : ℤ)
    → d.scale ≤ℤ s
    → n ≤ℤ s
    → Rescaled d n (some r)
    → at s r ≡ at s d
unfolding at
at-Rescaled s d r n h k (e, v) = elim (Bool-cases (leb_ℤ d.scale n)) [
  | inl f ↦
      rw (sym (unit r.unscaled d.scale n (leb→le _ _ f)), v, e) (sym (at-at s n d (leb→le _ _ f) k))
  | inr f ↦
      at-at s d.scale r (rw e (falls f)) h
      ∙ ap (λ u. u *ℕ 10 ^ above s d.scale)
          (ap (λ t. r.unscaled *ℕ 10 ^ above d.scale t) e ∙ v ∙ unit d.unscaled n d.scale (falls f))
]
  where
    falls : leb_ℤ d.scale n ≡ false → n ≤ℤ d.scale
    falls f = ground arith

must-Rescaled :
    (d : Decimal) (n : ℤ) (o : Option Decimal)
    → Rescaled d n o
    → (s : ℤ) → d.scale ≤ℤ s
    → n ≤ℤ s
    → ((must d o).scale ≤ℤ s) × (at s (must d o) ≡ at s d)
unfolding must
must-Rescaled d n none x s h k = (h, refl)
must-Rescaled d n (some r) (e, v) s h k = (rw e k, at-Rescaled s d r n h k (e, v))

-- A rescaling does not change how a decimal compares.
pub cmp-must : (x d : Decimal) (n : ℤ) → cmp x (must d (set_scale d n)) ≡ cmp x d
cmp-must x d n =
    let s = pos (pos_part x.scale + pos_part d.scale + pos_part n) in
    let (l, e) =
      must-Rescaled d n (set_scale d n) (set_scale-Rescaled d n) s (omega arith) (omega arith) in
    cmp-cmp_ℤ s x (must d (set_scale d n)) (omega arith) l
    ∙ ap (λ a. cmp_ℤ (at s x) a) e
    ∙ sym (cmp-cmp_ℤ s x d (omega arith) (omega arith))

pub wrap-IsInt32 : (a : ℤ) → IsInt32 a → wrap_int32 a ≡ a
unfolding wrap_int32
wrap-IsInt32 (pos n) (h, k) = eq_of_parts _ _ (ground arith)
wrap-IsInt32 (negsuc n) (h, k) = eq_of_parts _ _ (ground arith)
