-- ===== src/Base/Pow.antt =====
-- Powers: exponents add, roots keep an order, and the order of two powers read off two others.
use native.Mathlib.Nat.{pow-zero, pow-suc, pow-le-pow_left, pow-le-pow_right, pow-lt-pow_left}
use cyoda_go_spi.Base.{
  ℕ, zero, suc, ◌+◌, ◌*◌, ◌^◌, ◌≤◌, ◌<◌, ◌≡◌, ◌≢◌, inl, inr, arith, leb, leb→le, Bool-cases, false,
}

pub pow-add : (a m n : ℕ) → a ^ (m + n) ≡ a ^ m * a ^ n
pow-add a m zero = rw pow-zero (rw (add_nothing m) (omega arith))
  where
    add_nothing : (m : ℕ) → m + 0 ≡ m
    add_nothing m = omega arith
pow-add a m (suc n) = rw (step m n, pow-suc a (m + n), pow-suc a n, pow-add a m n) (grind arith)
  where
    step : (m n : ℕ) → m + suc n ≡ suc (m + n)
    step m n = omega arith

pub pow-mul : (a m n : ℕ) → a ^ (m * n) ≡ (a ^ m) ^ n
pow-mul a m zero = rw (pow-zero (a ^ m), none_left m) (pow-zero a)
  where
    none_left : (m : ℕ) → m * 0 ≡ 0
    none_left m = omega arith
pow-mul a m (suc n) = rw (step m n, pow-suc (a ^ m) n, pow-add a (m * n) m, pow-mul a m n)
  where
    step : (m n : ℕ) → m * suc n ≡ m * n + m
    step m n = omega arith

-- `n`-th roots keep an order.
pub root-le : (a b n : ℕ) → n ≢ 0 → a ^ n ≤ b ^ n → a ≤ b
root-le a b n p h = elim (Bool-cases (leb a b)) [
  | inl e ↦ leb→le a b e
  | inr e ↦ absurd (omega (arith, h, pow-lt-pow_left {a = b} {b = a} {n = n} (above e) p))
]
  where
    above : leb a b ≡ false → b < a
    above e = ground arith

-- If `a ^ p ≤ b ^ r`, then also for exponents whose ratio is no larger.
pub pow-le-pow_by_ratio :
    (a b p r q k : ℕ) → 0 < a → r ≢ 0 → a ^ p ≤ b ^ r → q * r ≤ p * k → a ^ q ≤ b ^ k
pow-le-pow_by_ratio a b p r q k pa pr h l = root-le (a ^ q) (b ^ k) r pr (
    omega (
      arith,
      pow-mul a q r,
      pow-mul b k r,
      pow-mul a p k,
      pow-mul b r k,
      pow-le-pow_right {n = a} pa l,
      pow-le-pow_left h k,
      swap,
    ))
  where
    commuted : (r k : ℕ) → r * k ≡ k * r
    commuted r k = omega arith

    swap : b ^ (r * k) ≡ b ^ (k * r)
    swap = rw (commuted r k)
