-- ===== src/Decimal/Text.antt =====
-- `ParseDecimal` and `Canonical` of decimal.go. Texts are bytes, and an error is `none`, without its
-- message. `ToLower` is written for ASCII: a text with another letter fails where its digits are
-- read.
pub mod Read
pub mod RoundTrip
pub mod Scales
mod Tests
use mathlib.Core.List.{reverse}
use cyoda_go_spi.Base.{
  ℕ, suc, ◌+◌, ◌-◌, ◌*◌, ◌%◌, ◌^◌, ◌==◌, ltb, leb, Bool, true, false, not, ◌&&◌, ◌||◌, [], ◌∷◌,
  ◌++◌, Option, none, some, Bytes, codes, if◌then◌else◌, length, take, drop, all_of, List, zero,
}
use cyoda_go_spi.Base.Int.{ℤ, pos, negsuc, pos_part, neg_part, magnitude, sub_ℕ, ◌-ℤ◌, ltb_ℤ, leb_ℤ}
use cyoda_go_spi.Base.Digits.{print, is_digit, value}
use cyoda_go_spi.Operators.{same_bytes}
use cyoda_go_spi.Decimal.{Decimal, is_zero, min_int32, max_int32, wrap_int32, negate}

abbrev pub lower : ℕ → ℕ
lower c = if leb b'A' c && leb c b'Z' then c + 32 else c

unfoldable pub to_lower : Bytes → Bytes
to_lower [] = []
to_lower (c ∷ s) = lower c ∷ to_lower s

unfoldable pub one_of : Bytes → List Bytes → Bool
one_of s [] = false
one_of s (w ∷ ws) = same_bytes s w || one_of s ws

abbrev pub non_numeric : List Bytes
non_numeric =
    codes "nan"
    ∷ codes "inf"
    ∷ codes "infinity"
    ∷ codes "+inf"
    ∷ codes "+infinity"
    ∷ codes "-inf"
    ∷ codes "-infinity"
    ∷ []

abbrev pub contains_byte : ℕ → Bytes → Bool
contains_byte b [] = false
contains_byte b (c ∷ s) = c == b || contains_byte b s

-- What stands before the first byte of a kind, and what follows it.
unfoldable pub cut_at : (ℕ → Bool) → Bytes → Option (Bytes × Bytes)
cut_at p [] = none
cut_at p (c ∷ s) = if p c then some ([], s) else before c (cut_at p s)
  where
    before : ℕ → Option (Bytes × Bytes) → Option (Bytes × Bytes)
    before c none = none
    before c (some (a, b)) = some (c ∷ a, b)

abbrev pub is_exponent : ℕ → Bool
is_exponent c = c == b'e' || c == b'E'

-- A sign and what follows it; true for a minus.
unfoldable pub sign_of : Bytes → Bool × Bytes
sign_of [] = (false, [])
sign_of (c ∷ s) = if c == b'+' then (false, s) else if c == b'-' then (true, s) else (false, c ∷ s)

abbrev pub is_empty : Bytes → Bool
is_empty [] = true
is_empty (c ∷ s) = false

abbrev pub signed : Bool → ℕ → ℤ
signed true n = sub_ℕ 0 n
signed false n = pos n

-- `strconv.ParseInt(s, 10, 64)`
pub parse_int : Bytes → Option ℤ
parse_int s =
    let (minus, ds) = sign_of s in
    if is_empty ds || not (all_of is_digit ds)
    then none
    else if leb (value ds) (if minus then 2 ^ 63 else 2 ^ 63 - 1)
    then some (signed minus (value ds))
    else none

-- A difference of two int64s, which wraps round.
unfoldable pub wrap_int64 : ℤ → ℤ
wrap_int64 a = sub_ℕ ((pos_part a + 2 ^ 63 + (2 ^ 64 - neg_part a % 2 ^ 64)) % 2 ^ 64) (2 ^ 63)

-- The exponent; no `e` is 0, and nothing after it is an error.
unfoldable pub read_exponent : Option Bytes → Option ℤ
read_exponent none = some (pos 0)
read_exponent (some s) = if is_empty s then none else parse_int s

-- The coefficient and the scale.
unfoldable pub build : Bool → Bytes → Bytes → ℤ → Option Decimal
build minus int_part frac_part exp =
    let scale = wrap_int64 (pos (length frac_part) -ℤ exp) in
    if ltb_ℤ max_int32 scale || ltb_ℤ scale min_int32
    then none
    else some (record { unscaled = signed minus (value (int_part ++ frac_part)); scale = scale })

unfoldable pub with_exponent : Bool → Bytes → Bytes → Option ℤ → Option Decimal
with_exponent minus int_part frac_part none = none
with_exponent minus int_part frac_part (some exp) = build minus int_part frac_part exp

-- The checks on the two parts of a mantissa, which has a point or not.
unfoldable pub read_parts : Bool → Bool → Bytes → Bytes → Option Bytes → Option Decimal
read_parts minus has_point int_part frac_part exp_part =
    let whole_part = if is_empty int_part then codes "0" else int_part in
    if contains_byte b'.' frac_part
    then none
    else if same_bytes whole_part (codes "0") && is_empty frac_part && has_point
    then none
    else if not (all_of is_digit whole_part && all_of is_digit frac_part)
    then none
    else with_exponent minus whole_part frac_part (read_exponent exp_part)

unfoldable pub split_point : Bool → Bytes → Option (Bytes × Bytes) → Option Bytes → Option Decimal
split_point minus mantissa none exp_part = read_parts minus false mantissa [] exp_part
split_point minus mantissa (some (int_part, frac_part)) exp_part =
    read_parts minus true int_part frac_part exp_part

unfoldable pub read_mantissa : Bytes → Option Bytes → Option Decimal
read_mantissa mantissa exp_part =
    let (minus, rest) = sign_of mantissa in
    if is_empty rest then none else split_point minus rest (cut_at (λ c. c == b'.') rest) exp_part

unfoldable pub split_exponent : Bytes → Option (Bytes × Bytes) → Option Decimal
split_exponent s none = read_mantissa s none
split_exponent s (some (mantissa, exp_part)) = read_mantissa mantissa (some exp_part)

unfoldable pub parse_decimal : Bytes → Option Decimal
parse_decimal s =
    if is_empty s || one_of (to_lower s) non_numeric
    then none
    else split_exponent s (cut_at is_exponent s)

pub zeros : ℕ → Bytes
zeros zero = []
zeros (suc n) = b'0' ∷ zeros n

-- A count of repetitions; a negative one panics.
pub repeat_zeros : ℤ → Option Bytes
repeat_zeros (pos n) = some (zeros n)
repeat_zeros (negsuc n) = none

pub append_zeros : Bytes → Option Bytes → Option Bytes
append_zeros ds none = none
append_zeros ds (some z) = some (ds ++ z)

-- The point, for a scale of `n` digits.
pub insert_point : Bytes → ℕ → Bytes
insert_point ds n =
    if leb (length ds) n
    then b'0' ∷ b'.' ∷ zeros (n - length ds) ++ ds
    else take (length ds - n) ds ++ b'.' ∷ drop (length ds - n) ds

pub plain_digits : Bytes → ℤ → Option Bytes
plain_digits ds (pos zero) = some ds
plain_digits ds (pos (suc n)) = some (insert_point ds (suc n))
plain_digits ds (negsuc n) = append_zeros ds (repeat_zeros (wrap_int32 (pos (suc n))))

pub with_sign : Bool → Option Bytes → Option Bytes
with_sign minus none = none
with_sign minus (some s) = some (if minus then b'-' ∷ s else s)

-- `none` is a panic.
pub canonical : Decimal → Option Bytes
canonical d =
    if is_zero d
    then some (codes "0")
    else with_sign (ltb_ℤ d.unscaled (pos 0)) (plain_digits (print (magnitude d.unscaled)) d.scale)

pub marshal_json : Decimal → Option Bytes
marshal_json d = canonical d

abbrev pub begins_with : ℕ → Bytes → Bool
begins_with b [] = false
begins_with b (c ∷ s) = c == b

-- A text in quotes, without them.
pub unquoted : Bytes → Bytes
unquoted s =
    if leb 2 (length s) && begins_with 34 s && begins_with 34 (reverse s)
    then take (length s - 2) (drop 1 s)
    else s

pub unmarshal_json : Bytes → Option Decimal
unmarshal_json s = parse_decimal (unquoted s)
