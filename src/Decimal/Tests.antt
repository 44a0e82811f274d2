-- ===== src/Decimal/Tests.antt =====
-- Decimals that are compared, stripped, rescaled and rounded.
use cyoda_go_spi.Base.{◌^◌, ◌≤◌, ◌≡◌, refl, arith}
use cyoda_go_spi.Base.Int.{pos, negsuc, cmp_ℤ, ◌-ℤ◌}
use cyoda_go_spi.Base.Digits.{print}
use cyoda_go_spi.Decimal.{
  Decimal, stripped_by, headroom, trailing_zeros, leading_zeros, digits, digits_lo, digits_hi,
  bit_len, cmp, set_scale, strip_trailing_zeros, above, round_to_scale, floor,
}
use cyoda_go_spi.Decimal.Aligned.{at}
use cyoda_go_spi.Decimal.Digits.{digits-Bracket}
use cyoda_go_spi.Decimal.Order.{cmp-cmp_ℤ}
use cyoda_go_spi.Decimal.Strip.{Stripped, strip_trailing_zeros-Stripped}
use cyoda_go_spi.Decimal.Rounding.{Rounds, round_to_scale-Rounds}
use cyoda_go_spi.Decimal.Exact.{Rescaled, set_scale-Rescaled}

-- 15.00, 15 and -2.5
abbrev fifteen : Decimal
fifteen = record { unscaled = pos 1500; scale = pos 2 }

abbrev plain : Decimal
plain = record { unscaled = pos 15; scale = pos 0 }

abbrev minus : Decimal
minus = record { unscaled = negsuc 24; scale = pos 1 }

digits-Bracket_example :
    (digits_lo (bit_len 1500) ≤ digits 1500) × (digits 1500 ≤ digits_hi (bit_len 1500))
digits-Bracket_example = digits-Bracket 1500 (omega arith)

cmp-cmp_ℤ_example : cmp fifteen minus ≡ cmp_ℤ (at (pos 3) fifteen) (at (pos 3) minus)
cmp-cmp_ℤ_example = cmp-cmp_ℤ (pos 3) fifteen minus (omega arith) (omega arith)

strip_trailing_zeros-Stripped_example : Stripped fifteen (strip_trailing_zeros fifteen)
strip_trailing_zeros-Stripped_example = strip_trailing_zeros-Stripped fifteen refl (omega arith)

round_to_scale-Rounds_example :
    ((round_to_scale minus (pos 0) floor).scale ≡ pos 0)
    × Rounds floor minus.unscaled
        (round_to_scale minus (pos 0) floor).unscaled
        (10 ^ above minus.scale (pos 0))
round_to_scale-Rounds_example = round_to_scale-Rounds minus (pos 0) floor (omega arith)

set_scale-Rescaled_example : Rescaled minus (pos 0) (set_scale minus (pos 0))
set_scale-Rescaled_example = set_scale-Rescaled minus (pos 0)

stripped : strip_trailing_zeros fifteen ≡ plain
unfolding strip_trailing_zeros stripped_by headroom ◌-ℤ◌ trailing_zeros leading_zeros print
stripped = refl
