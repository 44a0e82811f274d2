-- ===== src/Decimal/Digits.antt =====
-- Digits and bits of a number, and the bracket that `digitCountBounds` gives.
use native.Mathlib.Nat.{pow-suc, pow-le-pow_right}
use cyoda_go_spi.Base.{
  ℕ, zero, suc, ◌+◌, ◌-◌, ◌*◌, ◌/◌, ◌^◌, ◌≤◌, ◌<◌, ◌≡◌, refl, sym, inl, inr, arith, true, false,
  ◌==◌, leb, leb→le, ltb, Bool-cases,
}
use cyoda_go_spi.Base.Digits.{print-le, lt-print, print-pos}
use cyoda_go_spi.Base.Pow.{pow-le-pow_by_ratio}
use cyoda_go_spi.Decimal.{
  digits, bit_len, bits_from, digits_lo, digits_hi, log10_of2_lo, log10_of2_hi, log10_of2_shift,
}

pub lt-digits : (n : ℕ) → n < 10 ^ digits n
unfolding digits
lt-digits n = lt-print n

pub digits_pos : (n : ℕ) → 0 < digits n
unfolding digits
digits_pos n = print-pos n

pub digits-le : (n : ℕ) → 0 < n → 10 ^ (digits n - 1) ≤ n
unfolding digits
digits-le n h = omega (arith, print-le n h, one_less (digits n) (digits_pos n))
  where
    one_less : (d : ℕ) → 0 < d → 10 ^ d ≡ 10 ^ (d - 1) * 10
    one_less zero h = absurd (omega arith)
    one_less (suc d) h = rw (pow-suc 10 d, pred d)
      where
        pred : (d : ℕ) → suc d - 1 ≡ d
        pred d = omega arith

-- More digits than the exponent of a power of ten that is no larger.
pub lt-digits_of_pow : (n q : ℕ) → 10 ^ q ≤ n → q < digits n
lt-digits_of_pow n q h = elim (Bool-cases (leb (digits n) q)) [
  | inl e ↦
      absurd (
        omega (arith, lt-digits n, pow-le-pow_right {n = 10} (omega arith) (leb→le (digits n) q e)))
  | inr e ↦ above e
]
  where
    above : leb (digits n) q ≡ false → q < digits n
    above e = ground arith

pub digits-le_of_lt_pow : (n q : ℕ) → 0 < n → n < 10 ^ q → digits n ≤ q
digits-le_of_lt_pow n q p h = elim (Bool-cases (leb (digits n) q)) [
  | inl e ↦ leb→le (digits n) q e
  | inr e ↦ absurd (omega (arith, digits-le n p, pow-le-pow_right {n = 10} (omega arith) (above e)))
]
  where
    above : leb (digits n) q ≡ false → q ≤ digits n - 1
    above e = ground arith

not_zero : (n : ℕ) → 0 < n → (n == 0) ≡ false
not_zero n p = ground arith

bits_from_next : (f n : ℕ) → 0 < n → bits_from (suc f) n ≡ suc (bits_from f (n / 2))
unfolding bits_from
bits_from_next f n p = rw (not_zero n p, bits_from)

bits_from-zero : (f : ℕ) → bits_from f 0 ≡ 0
unfolding bits_from
bits_from-zero zero = refl
bits_from-zero (suc f) = refl

bits_from-bounds :
    (f n : ℕ)
    → 0 < n
    → n ≤ f
    → (0 < bits_from f n) × (2 ^ (bits_from f n - 1) ≤ n) × (n < 2 ^ bits_from f n)
bits_from-bounds zero n p h = absurd (omega arith)
bits_from-bounds (suc f) n p h = rw (bits_from_next f n p) (elim (Bool-cases (ltb 1 n)) [
  | inl e ↦
      let (b, lo, hi) = bits_from-bounds f (n / 2) (half_pos e) (half_le e) in
      (
        omega arith,
        lower (bits_from f (n / 2)) b lo,
        rw (pow-suc 2 (bits_from f (n / 2))) (omega (arith, hi)),
      )
  | inr e ↦ rw (half_zero e, bits_from-zero f) (omega arith, omega arith, omega (arith, one e))
])
  where
    half_pos : ltb 1 n ≡ true → 0 < n / 2
    half_pos e = ground arith

    half_le : ltb 1 n ≡ true → n / 2 ≤ f
    half_le e = ground arith

    half_zero : ltb 1 n ≡ false → n / 2 ≡ 0
    half_zero e = ground arith

    one : ltb 1 n ≡ false → n < 2
    one e = ground arith

    lower : (b : ℕ) → 0 < b → 2 ^ (b - 1) ≤ n / 2 → 2 ^ (suc b - 1) ≤ n
    lower zero q lo = absurd (omega (arith, q))
    lower (suc b) q lo = rw (less (suc b), pow-suc 2 b) (omega (arith, lower_of b lo))
      where
        less : (b : ℕ) → suc b - 1 ≡ b
        less b = omega arith

        lower_of : (b : ℕ) → 2 ^ (suc b - 1) ≤ n / 2 → 2 ^ b ≤ n / 2
        lower_of b lo = rw (sym (less b)) lo

-- The first power of two is the larger of the first two, the second of the last two.
lower_ratio : leb (10 ^ 21306) (2 ^ 70777) ≡ true
lower_ratio = refl

upper_ratio : leb (2 ^ 254370) (10 ^ 76573) ≡ true
upper_ratio = refl

bit_len-bounds : (n : ℕ) → 0 < n → (0 < bit_len n) × (2 ^ (bit_len n - 1) ≤ n) × (n < 2 ^ bit_len n)
unfolding bit_len
bit_len-bounds n h = bits_from-bounds n n h (omega arith)

pow-lo-le : (k : ℕ) → 10 ^ (k * log10_of2_lo / 2 ^ log10_of2_shift) ≤ 2 ^ k
pow-lo-le k =
    pow-le-pow_by_ratio 10 2 21306 70777 (k * log10_of2_lo / 2 ^ log10_of2_shift) k (omega arith)
      (λ e. absurd (omega (arith, e))) (leb→le (10 ^ 21306) (2 ^ 70777) lower_ratio) (omega arith)

pow-le-hi : (k : ℕ) → 2 ^ k ≤ 10 ^ (k * log10_of2_hi / 2 ^ log10_of2_shift + 1)
pow-le-hi k =
    pow-le-pow_by_ratio 2 10 254370 76573 k (k * log10_of2_hi / 2 ^ log10_of2_shift + 1)
      (omega arith) (λ e. absurd (omega (arith, e))) (leb→le (2 ^ 254370) (10 ^ 76573) upper_ratio)
      (omega arith)

digits_lo_pos : (b : ℕ) → 0 < b → digits_lo b ≡ (b - 1) * log10_of2_lo / 2 ^ log10_of2_shift + 1
unfolding digits_lo
digits_lo_pos b p = rw (not_zero b p)

digits_hi_pos : (b : ℕ) → 0 < b → digits_hi b ≡ b * log10_of2_hi / 2 ^ log10_of2_shift + 1
unfolding digits_hi
digits_hi_pos b p = rw (not_zero b p)

-- The bracket holds for every number above zero.
pub digits_lo-le : (n : ℕ) → 0 < n → digits_lo (bit_len n) ≤ digits n
digits_lo-le n h =
    let (b, lo, hi) = bit_len-bounds n h in
    let exponent = (bit_len n - 1) * log10_of2_lo / 2 ^ log10_of2_shift in
    let below = lt-digits_of_pow n exponent (omega (arith, lo, pow-lo-le (bit_len n - 1))) in
    rw (digits_lo_pos (bit_len n) b) (omega (arith, below))

pub digits-le-digits_hi : (n : ℕ) → 0 < n → digits n ≤ digits_hi (bit_len n)
digits-le-digits_hi n h =
    let (b, lo, hi) = bit_len-bounds n h in
    rw (digits_hi_pos (bit_len n) b) (
      digits-le_of_lt_pow n (bit_len n * log10_of2_hi / 2 ^ log10_of2_shift + 1) h
        (omega (arith, hi, pow-le-hi (bit_len n))))

-- For a coefficient that is not zero, the number of decimal digits lies between the two bounds that
-- are computed from its number of bits.
pub digits-Bracket :
    (n : ℕ) → 0 < n → (digits_lo (bit_len n) ≤ digits n) × (digits n ≤ digits_hi (bit_len n))
digits-Bracket n h = (digits_lo-le n h, digits-le-digits_hi n h)
