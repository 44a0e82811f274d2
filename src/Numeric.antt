-- ===== src/Numeric.antt =====
-- numeric.go (the classification), numeric_bucket.go and numeric_admit.go, and the numeric part of
-- eval_leaf.go: an operand becomes one sub-condition for each declared type, and a stored number is
-- tried against those of the types that admit it. A search for `for ... continue` over types is the
-- concatenation of what each type gives. A stored number that does not parse is `none`.
pub mod Grid
pub mod Values
pub mod Double
pub mod Imprecise
pub mod Branches
pub mod Families
pub mod Search
pub mod Classify
pub mod Between
pub mod Texts
mod Tests
use cyoda_go_spi.Base.{
  ℕ, ◌+◌, ◌-◌, ◌*◌, ◌^◌, ◌==◌, ltb, leb, Bool, true, false, not, ◌&&◌, ◌||◌, List, [], ◌∷◌, ◌++◌,
  Option, none, some, if◌then◌else◌,
}
use cyoda_go_spi.Base.Int.{
  ℤ, pos, negsuc, magnitude, sub_ℕ, pos_part, neg_part, ◌-ℤ◌, ltb_ℤ, leb_ℤ, eqb_ℤ,
}
use cyoda_go_spi.Types.{
  DataType, integer, long, big_integer, unbound_integer, double, big_decimal, unbound_decimal,
  is_numeric, numeric_family,
}
use cyoda_go_spi.Operators.{
  FilterOp, filter_gt, filter_gte, filter_lt, filter_lte, filter_not_null, filter_ne, filter_ine,
  filter_not_contains, filter_inot_contains, filter_not_starts_with, filter_inot_starts_with,
  filter_not_ends_with, filter_inot_ends_with, cmp_result,
}
use cyoda_go_spi.Decimal.{
  Decimal, RoundingMode, ceiling, floor, precision, cmp, set_scale, is_int128, int128_min,
  int128_max, negate, round_to_scale, round_to_precision, strip_trailing_zeros,
}

abbrev pub int32_min : ℤ
int32_min = negsuc (2 ^ 31 - 1)

abbrev pub int32_max : ℤ
int32_max = pos (2 ^ 31 - 1)

abbrev pub int64_min : ℤ
int64_min = negsuc (2 ^ 63 - 1)

abbrev pub int64_max : ℤ
int64_max = pos (2 ^ 63 - 1)

abbrev pub between : ℤ → ℤ → ℤ → Bool
between low v high = leb_ℤ low v && leb_ℤ v high

pub classify_integer : ℤ → DataType
classify_integer v =
    if between int32_min v int32_max
    then integer
    else if between int64_min v int64_max
    then long
    else if between int128_min v int128_max
    then big_integer
    else unbound_integer

abbrev pub double_max_precision : ℕ
double_max_precision = 15

abbrev pub double_max_abs_scale : ℕ
double_max_abs_scale = 292

pub is_double_envelope : Decimal → Bool
is_double_envelope d =
    leb (precision d) double_max_precision && leb (magnitude d.scale) double_max_abs_scale

-- An error of the rescaling is `none`.
pub fits_int128 : Option Decimal → Bool
fits_int128 none = false
fits_int128 (some aligned) = is_int128 aligned

pub is_int128_decimal : Decimal → Bool
is_int128_decimal d =
    if ltb_ℤ (pos 18) d.scale
    then false
    else if leb (precision d) 38 && leb_ℤ (pos (precision d) -ℤ d.scale) (pos 20)
    then true
    else leb (precision d) 39
      && leb_ℤ (pos (precision d) -ℤ d.scale) (pos 21)
      && fits_int128 (set_scale d (pos 18))

pub classify_decimal : Decimal → DataType
classify_decimal d =
    if is_double_envelope d
    then double
    else if is_int128_decimal d
    then big_decimal
    else unbound_decimal

pub record NumericSubCondition : Type 0 where
  pub kind : DataType
  pub value : Decimal
  pub op : FilterOp
  pub not_null : Bool

pub is_comparing_op : FilterOp → Bool
is_comparing_op filter_gt = true
is_comparing_op filter_gte = true
is_comparing_op filter_lt = true
is_comparing_op filter_lte = true
is_comparing_op _ = false

pub is_less_op : FilterOp → Bool
is_less_op filter_lt = true
is_less_op filter_lte = true
is_less_op _ = false

pub is_great_op : FilterOp → Bool
is_great_op filter_gt = true
is_great_op filter_gte = true
is_great_op _ = false

pub rounding_mode_for : FilterOp → RoundingMode
rounding_mode_for filter_gte = ceiling
rounding_mode_for filter_lt = ceiling
rounding_mode_for _ = floor

pub data RangePos : Type 0 where
  in_range above_range below_range : RangePos

pub to_range : Decimal → Decimal → Decimal → RangePos
to_range value low high =
    if ltb_ℤ (cmp value low) (pos 0)
    then below_range
    else if ltb_ℤ (pos 0) (cmp value high)
    then above_range
    else in_range

abbrev pub whole : ℤ → Decimal
whole n = record { unscaled = n; scale = pos 0 }

abbrev pub neg : Decimal → Decimal
neg d = record { unscaled = negate d.unscaled; scale = d.scale }

-- `9.99999999999999e292` read and stripped: fifteen nines.
abbrev pub double_bucket_max : Decimal
double_bucket_max = record { unscaled = pos 999999999999999; scale = negsuc 277 }

abbrev pub bd128_max : Decimal
bd128_max = record { unscaled = int128_max; scale = pos 18 }

abbrev pub bd128_min : Decimal
bd128_min = record { unscaled = int128_min; scale = pos 18 }

pub is_double_bucket_precise : Decimal → Bool
is_double_bucket_precise value =
    leb (precision value) double_max_precision && leb_ℤ value.scale (pos double_max_abs_scale)

pub clamp_scale : Decimal → RoundingMode → Decimal
clamp_scale value mode =
    if ltb_ℤ (pos double_max_abs_scale) value.scale
    then round_to_scale value (pos double_max_abs_scale) mode
    else value

-- The second step starts again from the value itself.
pub round_double_imprecise : Decimal → RoundingMode → Decimal
round_double_imprecise value mode =
    if ltb double_max_precision (precision (clamp_scale value mode))
    then round_to_precision value double_max_precision mode
    else clamp_scale value mode

abbrev pub condition : DataType → Decimal → FilterOp → NumericSubCondition
condition t v o = record { kind = t; value = v; op = o; not_null = false }

-- A bare test of existence; the value is Go's zero value and is not read.
abbrev pub existence : DataType → NumericSubCondition
existence t = record { kind = t; value = whole (pos 0); op = filter_not_null; not_null = true }

pub produce_decimal_in_range : DataType → Decimal → FilterOp → List NumericSubCondition
produce_decimal_in_range big_decimal value o = condition big_decimal value o ∷ []
produce_decimal_in_range double value o =
    if is_double_bucket_precise value
    then condition double value o ∷ []
    else if is_comparing_op o
    then condition double (round_double_imprecise value (rounding_mode_for o)) o ∷ []
    else []
produce_decimal_in_range _ value o = []

-- What a bucket gives for a position of the operand.
pub by_range : RangePos → DataType → FilterOp → List NumericSubCondition → List NumericSubCondition
by_range in_range t o inside = inside
by_range above_range t o inside = if is_less_op o then existence t ∷ [] else []
by_range below_range t o inside = if is_great_op o then existence t ∷ [] else []

pub decimal_branch : Decimal → FilterOp → DataType → List NumericSubCondition
decimal_branch value o unbound_decimal = condition unbound_decimal value o ∷ []
decimal_branch value o double =
    by_range (to_range value (neg double_bucket_max) double_bucket_max) double o
      (produce_decimal_in_range double value o)
decimal_branch value o big_decimal =
    by_range (to_range value bd128_min bd128_max) big_decimal o
      (produce_decimal_in_range big_decimal value o)
decimal_branch value o _ = []

pub int_branch : Decimal → FilterOp → DataType → List NumericSubCondition
int_branch value o unbound_integer = condition unbound_integer value o ∷ []
int_branch value o integer =
    by_range (to_range value (whole int32_min) (whole int32_max)) integer o
      (condition integer value o ∷ [])
int_branch value o long =
    by_range (to_range value (whole int64_min) (whole int64_max)) long o
      (condition long value o ∷ [])
int_branch value o big_integer =
    by_range (to_range value (whole int128_min) (whole int128_max)) big_integer o
      (condition big_integer value o ∷ [])
int_branch value o _ = []

-- A loop that appends what each type gives.
pub for_types : (DataType → List NumericSubCondition) → List DataType → List NumericSubCondition
for_types f [] = []
for_types f (t ∷ ts) = f t ++ for_types f ts

pub expand_decimal_family : Decimal → List DataType → FilterOp → List NumericSubCondition
expand_decimal_family value types o = for_types (decimal_branch value o) types

pub fold_to_int : Decimal → FilterOp → Option Decimal
fold_to_int value o =
    if leb_ℤ value.scale (pos 0)
    then some value
    else if is_comparing_op o
    then some (round_to_scale value (pos 0) (rounding_mode_for o))
    else none

pub expand_folded : Option Decimal → List DataType → FilterOp → List NumericSubCondition
expand_folded none types o = []
expand_folded (some value) types o = for_types (int_branch value o) types

pub expand_int_family : Decimal → List DataType → FilterOp → List NumericSubCondition
expand_int_family value types o = expand_folded (fold_to_int value o) types o

pub of_family : ℕ → List DataType → List DataType
of_family n [] = []
of_family n (t ∷ ts) = let rest = of_family n ts in if numeric_family t == n then t ∷ rest else rest

pub expand_numeric_operand : Decimal → List DataType → FilterOp → List NumericSubCondition
expand_numeric_operand value declared o =
    expand_decimal_family value (of_family 2 declared) o
    ++ expand_int_family value (of_family 1 declared) o

abbrev pub is_in_range : RangePos → Bool
is_in_range in_range = true
is_in_range _ = false

pub admits_whole_in_range : Decimal → Decimal → Decimal → Bool
admits_whole_in_range stripped low high =
    if ltb_ℤ (pos 0) stripped.scale then false else is_in_range (to_range stripped low high)

-- The cases of the switch, for a stripped value.
pub admits_stripped : DataType → Decimal → Bool
admits_stripped unbound_decimal d = true
admits_stripped unbound_integer d = leb_ℤ d.scale (pos 0)
admits_stripped integer d = admits_whole_in_range d (whole int32_min) (whole int32_max)
admits_stripped long d = admits_whole_in_range d (whole int64_min) (whole int64_max)
admits_stripped big_integer d = admits_whole_in_range d (whole int128_min) (whole int128_max)
admits_stripped double d =
    is_in_range (to_range d (neg double_bucket_max) double_bucket_max) && is_double_bucket_precise d
admits_stripped big_decimal d = is_in_range (to_range d bd128_min bd128_max)
admits_stripped _ d = false

pub admits_numeric : DataType → Decimal → Bool
admits_numeric t v = if is_numeric t then admits_stripped t (strip_trailing_zeros v) else false

-- The numeric types of a declaration, and the operand read the way a stored number is.
pub numeric_declared : List DataType → List DataType
numeric_declared [] = []
numeric_declared (t ∷ ts) =
    let rest = numeric_declared ts in if is_numeric t then t ∷ rest else rest

pub expand_compare_number : FilterOp → Decimal → List DataType → List NumericSubCondition
expand_compare_number o operand declared =
    expand_numeric_operand (strip_trailing_zeros operand) (numeric_declared declared) o

-- Whether a sub-condition that is tried matches.
abbrev pub holds : Decimal → NumericSubCondition → Bool
holds x c = c.not_null || cmp_result (cmp x c.value) c.op

-- The loop over the sub-conditions: whether one matched, and whether one was tried.
pub try_numeric : Decimal → List NumericSubCondition → Bool → Bool × Bool
try_numeric x [] had = (false, had)
try_numeric x (c ∷ cs) had =
    let rest = try_numeric x cs true in
    let skipped = try_numeric x cs had in
    if not (admits_numeric c.kind x) then skipped else if holds x c then (true, true) else rest

pub eval_compare_number : Option Decimal → List NumericSubCondition → Bool × Bool
eval_compare_number none cs = (false, true)
eval_compare_number (some x) cs = try_numeric x cs false

pub is_negative_op : FilterOp → Bool
is_negative_op filter_ne = true
is_negative_op filter_ine = true
is_negative_op filter_not_contains = true
is_negative_op filter_inot_contains = true
is_negative_op filter_not_starts_with = true
is_negative_op filter_inot_starts_with = true
is_negative_op filter_not_ends_with = true
is_negative_op filter_inot_ends_with = true
is_negative_op _ = false

-- `kindCompare` of `EvalLeaf`: an untried value follows the polarity of the operator.
pub decide : Bool × Bool → FilterOp → Bool
decide (matched, had_candidate) o =
    if matched then true else if not had_candidate then is_negative_op o else false

pub eval_leaf_number : FilterOp → Decimal → List DataType → Option Decimal → Bool
eval_leaf_number o operand declared stored =
    decide (eval_compare_number stored (expand_compare_number o operand declared)) o
