-- ===== src/Types/TypeSet.antt =====
-- datatype.go, `TypeSet`: the declared types of one schema node, kept sorted, with at most one
-- numeric type and the null type only where nothing else is declared. A set is the Go slice `types`;
-- `sort.Slice` is an insertion sort on the enumeration's numbers.
pub mod Members
pub mod Invariant
pub mod Step
pub mod Summary
pub mod Order
use cyoda_go_spi.Base.{
  ℕ, Bool, true, false, not, ◌&&◌, List, [], ◌∷◌, ◌++◌, Option, none, some, ◌==◌, leb, ltb,
  if◌then◌else◌, length, keep, any_of,
}
use cyoda_go_spi.Types.{DataType, null, index, same, is_numeric, collapse_numeric}

abbrev pub TypeSet : Type 0
TypeSet = List DataType

abbrev pub contains : DataType → List DataType → Bool
contains t = any_of (λ x. same x t)

abbrev pub not_null : DataType → Bool
not_null t = not (same t null)

pub insert_type : DataType → List DataType → List DataType
insert_type t [] = t ∷ []
insert_type t (x ∷ xs) = elim (leb (index t) (index x)) [
  | true ↦ t ∷ x ∷ xs
  | false ↦ x ∷ insert_type t xs
]

pub sort_types : List DataType → List DataType
sort_types [] = []
sort_types (x ∷ xs) = insert_type x (sort_types xs)

-- `if len(numerics) >= 2`, with `CollapseNumeric` behind it.
pub collapse : List DataType → List DataType
collapse ts =
    let numerics = keep is_numeric ts in
    if leb 2 (length numerics)
    then elim (collapse_numeric numerics) [
      | none ↦ ts
      | some c ↦ keep (λ t. not (is_numeric t)) ts ++ c ∷ []
    ]
    else ts

pub add : TypeSet → DataType → TypeSet
add ts d =
    if same d null && any_of not_null ts
    then ts
    else if contains d ts
    then ts
    else let appended = ts ++ d ∷ [] in
      let concrete = if not_null d then keep not_null appended else appended in
      sort_types (collapse concrete)

pub add_all : TypeSet → List DataType → TypeSet
add_all ts [] = ts
add_all ts (d ∷ ds) = add_all (add ts d) ds

pub union : TypeSet → TypeSet → TypeSet
union a b = add_all (add_all [] a) b

-- `Equal`: the same length, and the same type at each position.
pub equal : TypeSet → TypeSet → Bool
equal [] [] = true
equal (x ∷ xs) (y ∷ ys) = if same x y then equal xs ys else false
equal _ _ = false

pub is_polymorphic : TypeSet → Bool
is_polymorphic ts = ltb 1 (length ts)

pub is_empty : TypeSet → Bool
is_empty ts = length ts == 0
