-- ===== src/Types.antt =====
-- datatype.go and numeric.go: the enumeration of declared types with the constants in their Go order
-- (`index` is the number that `iota` gives), `NumericFamily`, `NumericRank`, `IsNumeric`,
-- `wideningLattice`, `IsAssignableTo` and `CollapseNumeric`. A panic is `none`. The set of types that
-- a schema node keeps is in `Types.TypeSet`.
pub mod Lattice
pub mod TypeSet
mod Tests
use cyoda_go_spi.Base.{
  ℕ, ◌≡◌, ◌↔◌, Bool, true, false, not, ◌&&◌, ◌||◌, List, [], ◌∷◌, Option, none, some, arith, ◌==◌,
  if◌then◌else◌,
}
use cyoda_go_spi.Base.Int.{ℤ, pos, negsuc, ltb_ℤ}

pub data DataType : Type 0 where
  integer long big_integer unbound_integer double big_decimal unbound_decimal : DataType
  string character : DataType
  local_date local_date_time local_time zoned_date_time year year_month : DataType
  uuid_type time_uuid_type : DataType
  byte_array : DataType
  boolean : DataType
  null : DataType

abbrev pub index : DataType → ℕ
index integer = 0
index long = 1
index big_integer = 2
index unbound_integer = 3
index double = 4
index big_decimal = 5
index unbound_decimal = 6
index string = 7
index character = 8
index local_date = 9
index local_date_time = 10
index local_time = 11
index zoned_date_time = 12
index year = 13
index year_month = 14
index uuid_type = 15
index time_uuid_type = 16
index byte_array = 17
index boolean = 18
index null = 19

-- `a == b` on the enumeration.
abbrev pub same : DataType → DataType → Bool
same a b = index a == index b

-- Which of the two number lines a type is on; 0 for the rest.
abbrev pub numeric_family : DataType → ℕ
numeric_family integer = 1
numeric_family long = 1
numeric_family big_integer = 1
numeric_family unbound_integer = 1
numeric_family double = 2
numeric_family big_decimal = 2
numeric_family unbound_decimal = 2
numeric_family _ = 0

abbrev pub numeric_rank : DataType → ℤ
numeric_rank integer = pos 0
numeric_rank long = pos 1
numeric_rank big_integer = pos 2
numeric_rank unbound_integer = pos 3
numeric_rank double = pos 0
numeric_rank big_decimal = pos 1
numeric_rank unbound_decimal = pos 2
numeric_rank _ = negsuc 0

abbrev pub is_numeric : DataType → Bool
is_numeric t = not (numeric_family t == 0)

-- The rows of the table; a type with no row reaches nothing.
abbrev pub widening_lattice : DataType → DataType → Bool
widening_lattice integer t =
    same t long
    || same t double
    || same t big_integer
    || same t big_decimal
    || same t unbound_integer
    || same t unbound_decimal
widening_lattice long t =
    same t big_integer || same t big_decimal || same t unbound_integer || same t unbound_decimal
widening_lattice big_integer t = same t unbound_integer || same t unbound_decimal
widening_lattice unbound_integer t = same t unbound_decimal
widening_lattice double t = same t unbound_decimal
widening_lattice big_decimal t = same t unbound_decimal
widening_lattice _ t = false

pub is_assignable_to : DataType → DataType → Bool
is_assignable_to d s = if same d s then true else if same d null then true else widening_lattice d s

-- `widestInt` and `widestDec`; the sentinel -1 is `none`.
pub record Widest : Type 0 where
  pub widest_int : Option DataType
  pub widest_dec : Option DataType

abbrev pub wider : Option DataType → DataType → Option DataType
wider none t = some t
wider (some w) t = if ltb_ℤ (numeric_rank w) (numeric_rank t) then some t else some w

-- One turn of the first loop of `CollapseNumeric`.
pub widen_by : Widest → DataType → Option Widest
widen_by w t =
    if numeric_family t == 1
    then some (record w { widest_int = wider w.widest_int t })
    else if numeric_family t == 2
    then some (record w { widest_dec = wider w.widest_dec t })
    else none

pub widest_of : Widest → List DataType → Option Widest
widest_of w [] = some w
widest_of w (t ∷ ts) = elim (widen_by w t) [ none ↦ none | some w' ↦ widest_of w' ts ]

-- The second loop: does every type widen to the candidate?
pub all_fit : DataType → List DataType → Bool
all_fit c [] = true
all_fit c (t ∷ ts) = if not (same t c) && not (is_assignable_to t c) then false else all_fit c ts

pub choose : Widest → List DataType → Option DataType
choose w ts = elim w.widest_dec [
  | none ↦ w.widest_int
  | some c ↦ if all_fit c ts then some c else some unbound_decimal
]

pub collapse_numeric : List DataType → Option DataType
collapse_numeric [] = none
collapse_numeric (t ∷ ts) =
    elim (widest_of (record { widest_int = none; widest_dec = none }) (t ∷ ts)) [
      | none ↦ none
      | some w ↦ choose w (t ∷ ts)
    ]

pub same_iff : (a b : DataType) → (same a b ≡ true) ↔ (a ≡ b)
same_iff a b = ground arith
