-- ===== src/Decimal/Text/Scales.antt =====
-- `ParseDecimal` gives decimals whose scale is an int32.
use cyoda_go_spi.Base.{
  ◌≡◌, arith, inl, inr, Bool, true, false, not, ◌&&◌, ◌||◌, Bool-cases, [], ◌++◌, Option, none,
  some, Bytes, codes, if◌then◌else◌, length, all_of, subst,
}
use cyoda_go_spi.Base.Int.{ℤ, pos, ◌-ℤ◌, ltb_ℤ}
use cyoda_go_spi.Base.Digits.{is_digit, value}
use cyoda_go_spi.Operators.{same_bytes}
use cyoda_go_spi.Decimal.{Decimal, min_int32, max_int32, IsInt32}
use cyoda_go_spi.Decimal.Text.{
  contains_byte, cut_at, is_exponent, is_empty, signed, read_exponent, build, with_exponent,
  read_parts, split_point, read_mantissa, split_exponent, parse_decimal, wrap_int64,
}

-- A decimal that is read, if one is, has such a scale.
InRange : Option Decimal → Type 0
InRange none = Unit
InRange (some d) = IsInt32 d.scale

InRange-checked : (b : Bool) (o : Option Decimal) → InRange o → InRange (if b then none else o)
unfolding InRange
InRange-checked true o h = tt
InRange-checked false o h = h

build-InRange : (minus : Bool) (ip fp : Bytes) (exp : ℤ) → InRange (build minus ip fp exp)
unfolding build InRange
build-InRange minus ip fp exp = of_scale (wrap_int64 (pos (length fp) -ℤ exp))
  where
    of_scale :
        (k : ℤ)
        → InRange (
            if ltb_ℤ max_int32 k || ltb_ℤ k min_int32
            then none
            else some (record { unscaled = signed minus (value (ip ++ fp)); scale = k }))
    of_scale k = elim (Bool-cases (ltb_ℤ max_int32 k || ltb_ℤ k min_int32)) [
      | inl e ↦ rw e tt
      | inr e ↦ rw e (ground (arith, e), ground (arith, e))
    ]

with_exponent-InRange :
    (minus : Bool) (ip fp : Bytes) (e : Option ℤ) → InRange (with_exponent minus ip fp e)
unfolding with_exponent InRange
with_exponent-InRange minus ip fp none = tt
with_exponent-InRange minus ip fp (some exp) = build-InRange minus ip fp exp

read_parts-InRange :
    (minus has_point : Bool) (ip fp : Bytes) (e : Option Bytes)
    → InRange (read_parts minus has_point ip fp e)
unfolding read_parts
read_parts-InRange minus has_point ip fp e =
    let whole_part = if is_empty ip then codes "0" else ip in
    InRange-checked (contains_byte b'.' fp) _ (
      InRange-checked (same_bytes whole_part (codes "0") && is_empty fp && has_point) _ (
        InRange-checked (not (all_of is_digit whole_part && all_of is_digit fp)) _
          (with_exponent-InRange minus whole_part fp (read_exponent e))))

split_point-InRange :
    (minus : Bool) (s : Bytes) (c : Option (Bytes × Bytes)) (e : Option Bytes)
    → InRange (split_point minus s c e)
unfolding split_point
split_point-InRange minus s none e = read_parts-InRange minus false s [] e
split_point-InRange minus s (some (ip, fp)) e = read_parts-InRange minus true ip fp e

read_mantissa-InRange : (s : Bytes) (e : Option Bytes) → InRange (read_mantissa s e)
unfolding read_mantissa
read_mantissa-InRange s e = InRange-checked _ _ (split_point-InRange _ _ _ e)

split_exponent-InRange : (s : Bytes) (c : Option (Bytes × Bytes)) → InRange (split_exponent s c)
unfolding split_exponent
split_exponent-InRange s none = read_mantissa-InRange s none
split_exponent-InRange s (some (m, e)) = read_mantissa-InRange m (some e)

parse_decimal-InRange : (s : Bytes) → InRange (parse_decimal s)
unfolding parse_decimal
parse_decimal-InRange s = InRange-checked _ _ (split_exponent-InRange s (cut_at is_exponent s))

-- A text that `parse_decimal` accepts, whatever its exponent, gives a decimal whose scale is an int32.
pub parse_decimal-IsInt32 : (s : Bytes) (d : Decimal) → parse_decimal s ≡ some d → IsInt32 d.scale
unfolding InRange
parse_decimal-IsInt32 s d h = subst InRange h (parse_decimal-InRange s)
