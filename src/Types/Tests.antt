-- ===== src/Types/Tests.antt =====
-- The theorems about declared types at concrete inputs, and runs of the definitions.
use cyoda_go_spi.Base.{◌≡◌, refl, [], ◌∷◌, some, arith}
use cyoda_go_spi.Types.{DataType, integer, long, double, string, null, local_date, collapse_numeric}
use cyoda_go_spi.Types.Lattice.{collapse_numeric-IsLub, IsLub}
use cyoda_go_spi.Types.TypeSet.{add_all, union}
use cyoda_go_spi.Types.TypeSet.Invariant.{Sums}
use cyoda_go_spi.Types.TypeSet.Order.{add_all-Sums, add_all_order, SameTypes, union_comm}

collapse_numeric-IsLub_example :
    (r : DataType) × (collapse_numeric (long ∷ double ∷ []) ≡ some r) × IsLub r (long ∷ double ∷ [])
collapse_numeric-IsLub_example = collapse_numeric-IsLub long (double ∷ []) (refl, (refl, tt))

add_all-Sums_example :
    Sums (null ∷ long ∷ string ∷ double ∷ []) (add_all [] (null ∷ long ∷ string ∷ double ∷ []))
add_all-Sums_example = add_all-Sums (null ∷ long ∷ string ∷ double ∷ [])

reordered : SameTypes (string ∷ integer ∷ double ∷ []) (double ∷ string ∷ integer ∷ string ∷ [])
reordered t = ground arith

add_all_order_example :
    add_all [] (string ∷ integer ∷ double ∷ [])
    ≡ add_all [] (double ∷ string ∷ integer ∷ string ∷ [])
add_all_order_example =
    add_all_order (string ∷ integer ∷ double ∷ []) (double ∷ string ∷ integer ∷ string ∷ [])
      reordered

union_comm_example :
    union (long ∷ []) (double ∷ local_date ∷ []) ≡ union (double ∷ local_date ∷ []) (long ∷ [])
union_comm_example = union_comm (long ∷ []) (double ∷ local_date ∷ [])
