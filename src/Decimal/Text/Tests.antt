-- ===== src/Decimal/Text/Tests.antt =====
-- Decimals that are written and read, and the texts that are refused.
use cyoda_go_spi.Base.{◌≡◌, refl, arith, none, some, Bytes, codes}
use cyoda_go_spi.Base.Int.{pos, negsuc, ◌-ℤ◌}
use cyoda_go_spi.Base.Digits.{print}
use cyoda_go_spi.Decimal.{Decimal, IsInt32, wrap_int32, min_int32}
use cyoda_go_spi.Decimal.Text.{
  canonical, parse_decimal, split_exponent, read_mantissa, sign_of, split_point, read_parts,
  with_exponent, read_exponent, parse_int, build, wrap_int64, cut_at, to_lower, one_of,
  plain_digits, append_zeros, repeat_zeros, with_sign,
}
use cyoda_go_spi.Decimal.Text.RoundTrip.{reread, canonical-parse_decimal}
use cyoda_go_spi.Decimal.Text.Scales.{parse_decimal-IsInt32}

-- -12.5 and 15e3
abbrev minus : Decimal
minus = record { unscaled = negsuc 124; scale = pos 1 }

abbrev large : Decimal
large = record { unscaled = pos 15; scale = negsuc 2 }

canonical-parse_decimal_example :
    (s : Bytes) × (canonical minus ≡ some s) × (parse_decimal s ≡ some (reread minus))
canonical-parse_decimal_example = canonical-parse_decimal minus (omega arith) (omega arith)

read_large : parse_decimal (codes "15e3") ≡ some large
unfolding parse_decimal split_exponent read_mantissa sign_of split_point read_parts with_exponent
    read_exponent parse_int build wrap_int64 cut_at to_lower one_of ◌-ℤ◌
read_large = refl

parse_decimal-IsInt32_example : IsInt32 large.scale
parse_decimal-IsInt32_example = parse_decimal-IsInt32 (codes "15e3") large read_large

-- A zero with a point and nothing behind it is refused; another digit in its place is not.
bare_zero : parse_decimal (codes "0.") ≡ none
unfolding parse_decimal split_exponent read_mantissa sign_of split_point read_parts cut_at to_lower
    one_of
bare_zero = refl

bare_one : parse_decimal (codes "1.") ≡ some (record { unscaled = pos 1; scale = pos 0 })
unfolding parse_decimal split_exponent read_mantissa sign_of split_point read_parts with_exponent
    read_exponent build wrap_int64 cut_at to_lower one_of ◌-ℤ◌
bare_one = refl

-- The negation of the least scale wraps round, and the count of zeros is negative.
least_scale : canonical (record { unscaled = pos 1; scale = min_int32 }) ≡ none
unfolding canonical with_sign plain_digits append_zeros repeat_zeros wrap_int32 print
least_scale = refl
