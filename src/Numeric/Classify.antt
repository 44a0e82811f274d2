-- ===== src/Numeric/Classify.antt =====
-- `ClassifyInteger` and the integer types that admit a whole number.
use cyoda_go_spi.Base.{ℕ, ◌≡◌, refl, ap, ◌∙◌, arith, inl, inr, true, false, Bool-cases}
use cyoda_go_spi.Base.Int.{ℤ, pos, cmp_ℤ, ltb_ℤ, leb_ℤ, ◌≤ℤ◌, ◌-ℤ◌, -ℤ_parts}
use cyoda_go_spi.Types.{
  DataType, integer, long, big_integer, unbound_integer, numeric_family, numeric_rank,
}
use cyoda_go_spi.Decimal.{cmp, is_zero, strip_trailing_zeros}
use cyoda_go_spi.Decimal.Aligned.{at, at-scale}
use cyoda_go_spi.Decimal.Order.{cmp-cmp_ℤ}
use cyoda_go_spi.Decimal.Strip.{strip_trailing_zeros-Stripped}
use cyoda_go_spi.Numeric.{
  whole, between, admits_numeric, admits_stripped, admits_whole_in_range, to_range,
  classify_integer,
}
use cyoda_go_spi.Numeric.Values.{cmp-strip_left}

-- A whole number stays whole.
strip-whole : (u : ℤ) → (strip_trailing_zeros (whole u)).scale ≤ℤ pos 0
unfolding strip_trailing_zeros
strip-whole u = elim (Bool-cases (is_zero (whole u))) [
  | inl z ↦ rw z (omega arith)
  | inr z ↦
      let (k, (e, v), least, last) = strip_trailing_zeros-Stripped (whole u) z (omega arith) in
      lower _ k e
]
  where
    lower : (r : ℤ) (k : ℕ) → r ≡ pos 0 -ℤ pos k → r ≤ℤ pos 0
    lower r k e = rw e (omega (arith, -ℤ_parts (pos 0) (pos k)))

cmp_whole : (u l : ℤ) → cmp (strip_trailing_zeros (whole u)) (whole l) ≡ cmp_ℤ u l
cmp_whole u l =
    cmp-strip_left (whole u) (whole l) (omega arith)
    ∙ cmp-cmp_ℤ (pos 0) (whole u) (whole l) (omega arith) (omega arith)
    ∙ ap (λ a. cmp_ℤ a (at (pos 0) (whole l))) (at-scale (pos 0) (whole u) refl)
    ∙ ap (λ a. cmp_ℤ u a) (at-scale (pos 0) (whole l) refl)

in_bounds :
    (u low high : ℤ)
    → admits_whole_in_range (strip_trailing_zeros (whole u)) (whole low) (whole high)
      ≡ between low u high
unfolding admits_whole_in_range to_range
in_bounds u low high = rw (not_fraction, cmp_whole u low, cmp_whole u high) (ground arith)
  where
    not_fraction : ltb_ℤ (pos 0) (strip_trailing_zeros (whole u)).scale ≡ false
    not_fraction = ground (arith, strip-whole u)

whole_number : (u : ℤ) → leb_ℤ (strip_trailing_zeros (whole u)).scale (pos 0) ≡ true
whole_number u = ground (arith, strip-whole u)

-- An integer type admits a whole number just if it does not rank below the type that
-- `classify_integer` gives.
pub classify_integer-admits_numeric :
    (u : ℤ) (t : DataType)
    → numeric_family t ≡ 1
    → admits_numeric t (whole u) ≡ leb_ℤ (numeric_rank (classify_integer u)) (numeric_rank t)
unfolding classify_integer admits_numeric admits_stripped
classify_integer-admits_numeric u integer h = rw (in_bounds u _ _) (ground arith)
classify_integer-admits_numeric u long h = rw (in_bounds u _ _) (ground arith)
classify_integer-admits_numeric u big_integer h = rw (in_bounds u _ _) (ground arith)
classify_integer-admits_numeric u unbound_integer h = rw (whole_number u) (ground arith)
classify_integer-admits_numeric u _ h = absurd (omega (arith, h))
