-- ===== src/Decimal.antt =====
-- decimal.go: decimals of any size, and the classification of numbers in numeric.go. A coefficient is
-- an integer; Go's nil coefficient, which only the zero value of the struct has, reads as zero.
-- A scale is an int32. `none` is an error. Where the source panics on a rescaling that cannot
-- fail, `must` returns the operand unchanged.
pub mod Digits
pub mod Aligned
pub mod Order
pub mod Strip
pub mod Rescale
pub mod Rounding
pub mod Exact
pub mod Text
mod Tests
use mathlib.Core.List.{reverse}
use cyoda_go_spi.Base.{
  ℕ, zero, suc, ◌+◌, ◌-◌, ◌*◌, ◌/◌, ◌%◌, ◌^◌, ◌≤◌, ◌==◌, ltb, leb, Bool, true, false, not, ◌&&◌,
  List, [], ◌∷◌, Option, none, some, Bytes, if◌then◌else◌, length,
}
use cyoda_go_spi.Base.Int.{
  ℤ, pos, negsuc, pos_part, neg_part, magnitude, sign, cmp_ℤ, quo_ℕ, sub_ℕ, ◌*ℕ◌, ◌+ℤ◌, ◌-ℤ◌, ◌≤ℤ◌,
  ltb_ℤ, leb_ℤ, eqb_ℤ,
}
use cyoda_go_spi.Base.Digits.{print}
use cyoda_go_spi.Types.{
  DataType, integer, long, big_integer, unbound_integer, double, big_decimal, unbound_decimal,
}

pub record Decimal : Type 0 where
  pub unscaled : ℤ
  pub scale : ℤ

abbrev pub min_int32 : ℤ
min_int32 = negsuc (2 ^ 31 - 1)

abbrev pub max_int32 : ℤ
max_int32 = pos (2 ^ 31 - 1)

-- A sum or difference of two int32s, which wraps round.
unfoldable pub wrap_int32 : ℤ → ℤ
wrap_int32 a = sub_ℕ ((pos_part a + 2 ^ 31 + (2 ^ 32 - neg_part a % 2 ^ 32)) % 2 ^ 32) (2 ^ 31)

-- The scales that a decimal can have.
abbrev pub IsInt32 : ℤ → Type 0
IsInt32 a = (min_int32 ≤ℤ a) × (a ≤ℤ max_int32)

abbrev pub is_zero : Decimal → Bool
is_zero d = magnitude d.unscaled == 0

-- `len(abs.String())`
pub digits : ℕ → ℕ
digits n = length (print n)

unfoldable pub precision : Decimal → ℕ
precision d = if is_zero d then 1 else digits (magnitude d.unscaled)

-- How many zeros a text begins with; the rendering is read from its end.
pub leading_zeros : Bytes → ℕ
leading_zeros [] = 0
leading_zeros (c ∷ s) = if c == b'0' then suc (leading_zeros s) else 0

pub trailing_zeros : ℕ → ℕ
trailing_zeros n = leading_zeros (reverse (print n))

-- How far the scale may fall: `int64(d.scale) - math.MinInt32`, which is not below 0.
pub headroom : Decimal → ℕ
headroom d = pos_part (d.scale -ℤ min_int32)

pub stripped_by : Decimal → ℕ → Decimal
stripped_by d k =
    if k == 0 then d else record { unscaled = quo_ℕ d.unscaled (10 ^ k); scale = d.scale -ℤ pos k }

unfoldable pub strip_trailing_zeros : Decimal → Decimal
strip_trailing_zeros d =
    if is_zero d
    then record { unscaled = pos 0; scale = pos 0 }
    else if magnitude d.unscaled % 2 == 1
    then d
    else let k = trailing_zeros (magnitude d.unscaled) in
      stripped_by d (if ltb (headroom d) k then headroom d else k)

-- How far one scale is above another, 0 where it is not.
abbrev pub above : ℤ → ℤ → ℕ
above a b = pos_part (a -ℤ b)

-- The division of `SetScale`.
pub reduce : Decimal → ℤ → ℕ → Option Decimal
reduce d new_scale factor =
    if magnitude d.unscaled % factor == 0
    then some (record { unscaled = quo_ℕ d.unscaled factor; scale = new_scale })
    else none

pub set_scale : Decimal → ℤ → Option Decimal
set_scale d new_scale =
    if eqb_ℤ d.scale new_scale
    then some (record { unscaled = d.unscaled; scale = new_scale })
    else if is_zero d
    then some (record { unscaled = pos 0; scale = new_scale })
    else if ltb_ℤ d.scale new_scale
    then some (record { unscaled = d.unscaled *ℕ 10 ^ above new_scale d.scale; scale = new_scale })
    else if ltb (precision d) (above d.scale new_scale)
    then none
    else reduce d new_scale (10 ^ above d.scale new_scale)

pub data RoundingMode : Type 0 where
  ceiling floor : RoundingMode

-- A rescaling that cannot fail.
pub must : Decimal → Option Decimal → Decimal
must d none = d
must d (some r) = r

-- The last digit of a quotient that dropped a part: `toward` tells whether a value above (or below)
-- zero lost something.
pub adjust : RoundingMode → ℤ → Bool → ℤ
adjust ceiling q true = q +ℤ pos 1
adjust ceiling q false = q
adjust floor q true = q
adjust floor q false = q -ℤ pos 1

pub round_quotient : RoundingMode → ℤ → ℕ → ℤ
round_quotient mode u factor =
    if magnitude u % factor == 0
    then quo_ℕ u factor
    else adjust mode (quo_ℕ u factor) (ltb_ℤ (pos 0) u)

pub round_to_scale : Decimal → ℤ → RoundingMode → Decimal
round_to_scale d new_scale mode =
    if leb_ℤ d.scale new_scale
    then must d (set_scale d new_scale)
    else if is_zero d
    then record { unscaled = pos 0; scale = new_scale }
    else if ltb (precision d) (above d.scale new_scale)
    then record { unscaled = adjust mode (pos 0) (ltb_ℤ (pos 0) d.unscaled); scale = new_scale }
    else record {
      unscaled = round_quotient mode d.unscaled (10 ^ above d.scale new_scale);
      scale = new_scale;
    }

unfoldable pub round_to_precision : Decimal → ℕ → RoundingMode → Decimal
round_to_precision d max_prec mode =
    if leb (precision d) max_prec
    then d
    else let result =
        round_to_scale d (wrap_int32 (d.scale -ℤ pos (precision d - max_prec))) mode in
      if ltb max_prec (precision result)
      then must result (set_scale result (wrap_int32 (result.scale -ℤ pos 1)))
      else result

abbrev pub log10_of2_lo : ℕ
log10_of2_lo = 1292913986

abbrev pub log10_of2_hi : ℕ
log10_of2_hi = 1292913987

abbrev pub log10_of2_shift : ℕ
log10_of2_shift = 32

-- `BitLen`; the fuel is the number itself, which halves in each round.
pub bits_from : ℕ → ℕ → ℕ
bits_from zero n = 0
bits_from (suc f) n = elim (n == 0) [ true ↦ 0 | false ↦ suc (bits_from f (n / 2)) ]

pub bit_len : ℕ → ℕ
unfolding bits_from
bit_len n = bits_from n n

-- The two bounds of `digitCountBounds`.
pub digits_lo : ℕ → ℕ
digits_lo bits = if bits == 0 then 1 else (bits - 1) * log10_of2_lo / 2 ^ log10_of2_shift + 1

pub digits_hi : ℕ → ℕ
digits_hi bits = if bits == 0 then 1 else bits * log10_of2_hi / 2 ^ log10_of2_shift + 1

-- Where the most significant digit stands, for a count of digits.
abbrev pub adjusted : ℕ → Decimal → ℤ
adjusted count d = pos count -ℤ d.scale

abbrev pub bits_of : Decimal → ℕ
bits_of d = bit_len (magnitude d.unscaled)

abbrev pub negate : ℤ → ℤ
negate a = sub_ℕ (neg_part a) (pos_part a)

-- The tie on magnitude: both at the larger scale.
pub cmp_aligned : Decimal → Decimal → ℤ
cmp_aligned d o =
    let target = if ltb_ℤ d.scale o.scale then o.scale else d.scale in
    cmp_ℤ (must d (set_scale d target)).unscaled (must o (set_scale o target)).unscaled

-- The exact digit counts, where the brackets overlap.
pub cmp_exact : Decimal → Decimal → ℤ
cmp_exact d o =
    if ltb_ℤ (adjusted (precision o) o) (adjusted (precision d) d)
    then sign d.unscaled
    else if ltb_ℤ (adjusted (precision d) d) (adjusted (precision o) o)
    then negate (sign d.unscaled)
    else cmp_aligned d o

-- Two values of one sign, not zero, and of different scales.
pub cmp_magnitude : Decimal → Decimal → ℤ
cmp_magnitude d o =
    if ltb_ℤ (adjusted (digits_hi (bits_of o)) o) (adjusted (digits_lo (bits_of d)) d)
    then sign d.unscaled
    else if ltb_ℤ (adjusted (digits_hi (bits_of d)) d) (adjusted (digits_lo (bits_of o)) o)
    then negate (sign d.unscaled)
    else cmp_exact d o

unfoldable pub cmp : Decimal → Decimal → ℤ
cmp d o =
    if not (eqb_ℤ (sign d.unscaled) (sign o.unscaled))
    then if ltb_ℤ (sign d.unscaled) (sign o.unscaled) then negsuc 0 else pos 1
    else if is_zero d
    then pos 0
    else if eqb_ℤ d.scale o.scale
    then cmp_ℤ d.unscaled o.unscaled
    else cmp_magnitude d o

abbrev pub int128_min : ℤ
int128_min = negsuc (2 ^ 127 - 1)

abbrev pub int128_max : ℤ
int128_max = pos (2 ^ 127 - 1)

pub is_int128 : Decimal → Bool
is_int128 d = leb_ℤ int128_min d.unscaled && leb_ℤ d.unscaled int128_max
