-- ===== src/Decimal/Strip.antt =====
-- `StripTrailingZeros`: the same value, and no zero digit left at the end of the coefficient.
use native.Mathlib.Nat.{pow-zero, pow-suc, mul-mod_left, eq_of_mul-eq-mul_right}
use mathlib.Core.List.{reverse, reverse-append}
use cyoda_go_spi.Base.{
  ℕ, zero, suc, ◌+◌, ◌-◌, ◌*◌, ◌/◌, ◌%◌, ◌^◌, ◌≤◌, ◌<◌, ◌≡◌, ◌⊎◌, refl, sym, ap, ◌∙◌, arith, inl,
  inr, true, false, ltb, ltb→lt, ◌==◌, ==_iff, Bool-cases, [], ◌∷◌, Bytes, if◌then◌else◌,
}
use cyoda_go_spi.Base.Int.{ℤ, pos, negsuc, magnitude, ◌*ℕ◌, ◌-ℤ◌, -ℤ_parts, ◌≤ℤ◌, eq_of_parts}
use cyoda_go_spi.Base.Digits.{print, print_from}
use cyoda_go_spi.Decimal.{
  Decimal, above, is_zero, leading_zeros, trailing_zeros, headroom, stripped_by,
  strip_trailing_zeros, min_int32,
}
use cyoda_go_spi.Base.Pow.{pow-add}
use cyoda_go_spi.Decimal.Aligned.{above_exact, *ℕ_one, pow10_pos}
use cyoda_go_spi.Decimal.Rounding.{quo-exact}
use cyoda_go_spi.Decimal.Rescale.{is_zero-ne}

-- `n` ends in exactly `k` zeros.
abbrev Zeros : ℕ → ℕ → Type 0
Zeros n k = (m : ℕ) × (n ≡ m * 10 ^ k) × (0 < m % 10)

Zeros-none : (n : ℕ) → 0 < n % 10 → Zeros n 0
Zeros-none n h = (n, rw (pow-zero 10) (omega arith), h)

Zeros-more : (n k : ℕ) → n % 10 ≡ 0 → Zeros (n / 10) k → Zeros n (suc k)
Zeros-more n k z (m, e, h) = (m, rw (pow-suc 10 k) (omega (arith, e, z)), h)

leading_zeros_zero :
    (c : ℕ) (s : Bytes) → (c == b'0') ≡ true → leading_zeros (c ∷ s) ≡ suc (leading_zeros s)
unfolding leading_zeros
leading_zeros_zero c s h = rw h

leading_zeros_digit : (c : ℕ) (s : Bytes) → (c == b'0') ≡ false → leading_zeros (c ∷ s) ≡ 0
unfolding leading_zeros
leading_zeros_digit c s h = rw h

print_from-Zeros : (f n : ℕ) → n < f → 0 < n → Zeros n (leading_zeros (reverse (print_from f n)))
unfolding print_from
print_from-Zeros zero n l p = absurd (omega (arith, l))
print_from-Zeros (suc f) n l p = elim (Bool-cases (ltb n 10)) [
  | inl e ↦
      rw (e, print_from)
        (rw (leading_zeros_digit (b'0' + n) [] (positive (ltb→lt n 10 e)))
          (Zeros-none n (omega (arith, p, ltb→lt n 10 e))))
  | inr e ↦
      rw (e, print_from, reverse-append (print_from f (n / 10)) ((b'0' + n % 10) ∷ []))
        (elim (Bool-cases (n % 10 == 0)) [
          | inl z ↦
              rw
                (leading_zeros_zero (b'0' + n % 10) (reverse (print_from f (n / 10)))
                  (is_zero_digit z))
                (Zeros-more n _ ((==_iff (n % 10) 0).0 z)
                  (print_from-Zeros f (n / 10) (smaller e) (tenth e)))
          | inr z ↦
              rw
                (leading_zeros_digit (b'0' + n % 10) (reverse (print_from f (n / 10)))
                  (no_zero_digit z))
                (Zeros-none n (some z))
        ])
]
  where
    positive : n < 10 → (b'0' + n == b'0') ≡ false
    positive l = ground arith

    is_zero_digit : (n % 10 == 0) ≡ true → (b'0' + n % 10 == b'0') ≡ true
    is_zero_digit z = ground arith

    no_zero_digit : (n % 10 == 0) ≡ false → (b'0' + n % 10 == b'0') ≡ false
    no_zero_digit z = ground arith

    some : (n % 10 == 0) ≡ false → 0 < n % 10
    some z = ground arith

    smaller : ltb n 10 ≡ false → n / 10 < f
    smaller e = ground arith

    tenth : ltb n 10 ≡ false → 0 < n / 10
    tenth e = ground arith

trailing_zeros-Zeros : (n : ℕ) → 0 < n → Zeros n (trailing_zeros n)
unfolding trailing_zeros print
trailing_zeros-Zeros n p = print_from-Zeros (suc n) n (omega arith) p

-- The same value at a scale that is smaller by `k`.
abbrev Lowered : Decimal → ℕ → Decimal → Type 0
Lowered d k r = (r.scale ≡ d.scale -ℤ pos k) × (r.unscaled *ℕ 10 ^ k ≡ d.unscaled)

stripped_by-Lowered :
    (d : Decimal) (k : ℕ) → magnitude d.unscaled % 10 ^ k ≡ 0 → Lowered d k (stripped_by d k)
unfolding stripped_by
stripped_by-Lowered d zero h = (same_scale, rw (pow-zero 10) (*ℕ_one d.unscaled))
  where
    same_scale : d.scale ≡ d.scale -ℤ pos 0
    same_scale = eq_of_parts _ _ (omega (arith, -ℤ_parts d.scale (pos 0)))
stripped_by-Lowered d (suc k) h =
    rw not_zero (refl, quo-exact d.unscaled (10 ^ suc k) (pow10_pos (suc k)) h)
  where
    not_zero : (suc k == 0) ≡ false
    not_zero = ground arith

pub magnitude-*ℕ : (a : ℤ) (m : ℕ) → magnitude (a *ℕ m) ≡ magnitude a * m
unfolding ◌*ℕ◌
magnitude-*ℕ (pos n) m = ground arith
magnitude-*ℕ (negsuc n) m = ground arith

-- What is below the zeros that are dropped.
Zeros-divide : (n k j : ℕ) → Zeros n k → j ≤ k → n % 10 ^ j ≡ 0
Zeros-divide n k j (m, e, h) l =
    rw (e, whole, pow-add 10 (k - j) j, mul_assoc) (mul-mod_left (m * 10 ^ (k - j)) (10 ^ j))
  where
    whole : k ≡ k - j + j
    whole = omega (arith, l)

    mul_assoc : m * (10 ^ (k - j) * 10 ^ j) ≡ m * 10 ^ (k - j) * 10 ^ j
    mul_assoc = omega arith

-- What strip leaves: the value of `d`, and a last digit that is not zero, unless the scale cannot
-- fall further.
abbrev pub Stripped : Decimal → Decimal → Type 0
Stripped d r =
    (k : ℕ) × Lowered d k r
    × (min_int32 ≤ℤ r.scale)
    × ((0 < magnitude r.unscaled % 10) ⊎ (r.scale ≡ min_int32))

odd-Stripped :
    (d : Decimal) → min_int32 ≤ℤ d.scale → (magnitude d.unscaled % 2 == 1) ≡ true → Stripped d d
odd-Stripped d b h = (
  0,
  (eq_of_parts _ _ (omega (arith, -ℤ_parts d.scale (pos 0))), rw (pow-zero 10) (*ℕ_one d.unscaled)),
  b,
  inl last,
)
  where
    odd : magnitude d.unscaled % 2 ≡ 1
    odd = (==_iff (magnitude d.unscaled % 2) 1).0 h

    last : 0 < magnitude d.unscaled % 10
    last = omega (arith, odd)

scale_stays :
    (a r : ℤ) (j : ℕ) → r ≡ a -ℤ pos j → min_int32 ≤ℤ a → j ≤ above a min_int32 → min_int32 ≤ℤ r
scale_stays a r j e b l = rw e (omega (arith, l, -ℤ_parts a (pos j), above_exact a min_int32 b))

scale_lowest : (a r : ℤ) → r ≡ a -ℤ pos (above a min_int32) → min_int32 ≤ℤ a → r ≡ min_int32
scale_lowest a r e b =
    eq_of_parts _ _
      (rw e (omega (arith, -ℤ_parts a (pos (above a min_int32)), above_exact a min_int32 b)))

no_zero_left : (u r : ℤ) (k : ℕ) → Zeros (magnitude u) k → r *ℕ 10 ^ k ≡ u → 0 < magnitude r % 10
no_zero_left u r k (m, e, h) v = rw same h
  where
    product : magnitude r * 10 ^ k ≡ m * 10 ^ k
    product = sym (magnitude-*ℕ r (10 ^ k)) ∙ ap magnitude v ∙ e

    same : magnitude r ≡ m
    same = eq_of_mul-eq-mul_right (10 ^ k) (pow10_pos k) (magnitude r) m product

even-Stripped :
    (d : Decimal) (k : ℕ)
    → min_int32 ≤ℤ d.scale
    → Zeros (magnitude d.unscaled) k
    → Stripped d (stripped_by d (if ltb (headroom d) k then headroom d else k))
unfolding headroom
even-Stripped d k b z = elim (Bool-cases (ltb (headroom d) k)) [
  | inl e ↦ rw e (capped _ (lowered (headroom d) (at_most e)))
  | inr e ↦ rw e (whole _ (lowered k (omega arith)) (at_least e))
]
  where
    lowered : (j : ℕ) → j ≤ k → Lowered d j (stripped_by d j)
    lowered j l = stripped_by-Lowered d j (Zeros-divide _ k j z l)

    at_most : ltb (headroom d) k ≡ true → headroom d ≤ k
    at_most e = ground arith

    at_least : ltb (headroom d) k ≡ false → k ≤ headroom d
    at_least e = ground arith

    capped : (r : Decimal) → Lowered d (headroom d) r → Stripped d r
    capped r (a, v) = (
      headroom d,
      (a, v),
      scale_stays d.scale _ (headroom d) a b (omega arith),
      inr (scale_lowest d.scale _ a b),
    )

    whole : (r : Decimal) → Lowered d k r → k ≤ headroom d → Stripped d r
    whole r (a, v) l =
        (k, (a, v), scale_stays d.scale _ k a b l, inl (no_zero_left d.unscaled r.unscaled k z v))

-- A decimal that is not zero, of a scale that is not below the least int32, keeps its value under
-- `strip_trailing_zeros`: the coefficient loses `k` zeros and the scale falls by `k`. The scale
-- stays in that range, and the last digit that is left is not zero unless the scale has reached the
-- least int32.
pub strip_trailing_zeros-Stripped :
    (d : Decimal) → is_zero d ≡ false → min_int32 ≤ℤ d.scale → Stripped d (strip_trailing_zeros d)
unfolding strip_trailing_zeros
strip_trailing_zeros-Stripped d n b = elim (Bool-cases (magnitude d.unscaled % 2 == 1)) [
  | inl e ↦ rw (n, e) (odd-Stripped d b e)
  | inr e ↦
      rw (n, e) (even-Stripped d _ b (trailing_zeros-Zeros (magnitude d.unscaled) (is_zero-ne d n)))
]
