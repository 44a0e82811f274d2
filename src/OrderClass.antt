-- ===== src/OrderClass.antt =====
-- order_class.go, with `OrderKind` of searcher.go and `FieldSource` of filter.go: the class in which
-- the values of a field are ordered, and the closed vocabulary of the metadata fields. A refusal of
-- `ClassifyTypesFold` is a constructor; the map of the vocabulary is a list of its entries, and its
-- keys are looked up like the cases of a `switch`.
pub mod Classes
mod Tests
use cyoda_go_spi.Base.{
  ℕ, Bool, true, false, ◌&&◌, ◌||◌, ◌==◌, List, [], ◌∷◌, Option, none, some, Bytes, codes, map,
  if◌then◌else◌, Result, ok, err,
}
use cyoda_go_spi.Types.{
  DataType, is_numeric, same, boolean, string, character, uuid_type, time_uuid_type, local_date,
  local_date_time, local_time, zoned_date_time, year, year_month, null,
}
use cyoda_go_spi.Operators.{switch, before_bytes}

pub data OrderKind : Type 0 where
  order_text order_numeric order_bool order_temporal : OrderKind

unfoldable pub kind_index : OrderKind → ℕ
kind_index order_text = 0
kind_index order_numeric = 1
kind_index order_bool = 2
kind_index order_temporal = 3

pub data ClassError : Type 0 where
  not_sortable : DataType → ClassError
  mixed_classes no_scalar_type : ClassError

unfoldable pub is_text_type : DataType → Bool
is_text_type t = same t string || same t character || same t uuid_type || same t time_uuid_type

unfoldable pub is_temporal_type : DataType → Bool
is_temporal_type t =
    same t local_date
    || same t local_date_time
    || same t local_time
    || same t zoned_date_time
    || same t year
    || same t year_month

unfoldable pub scalar_class : DataType → Result ClassError OrderKind
unfolding is_text_type is_temporal_type
scalar_class t =
    if is_numeric t
    then ok order_numeric
    else if same t boolean
    then ok order_bool
    else if is_text_type t
    then ok order_text
    else if is_temporal_type t
    then ok order_temporal
    else err (not_sortable t)

-- A nil fold is `none`.
unfoldable pub apply_fold : Option (OrderKind → OrderKind) → OrderKind → OrderKind
apply_fold none k = k
apply_fold (some fold) k = fold k

-- The loop's two variables `kind` and `have`, as `some kind` if `have` is set.
unfoldable pub merge_class : Option OrderKind → OrderKind → Result ClassError (Option OrderKind)
unfolding kind_index
merge_class none k = ok (some k)
merge_class (some kind) k =
    if kind_index k == kind_index kind then ok (some kind) else err mixed_classes

unfoldable pub class_loop :
    List DataType
    → Option (OrderKind → OrderKind)
    → Option OrderKind
    → Result ClassError (Option OrderKind)
unfolding scalar_class apply_fold merge_class
class_loop [] fold seen = ok seen
class_loop (t ∷ types) fold seen = elim (same t null) [
  | true ↦ class_loop types fold seen
  | false ↦ elim (scalar_class t) [
    | err e ↦ err e
    | ok k ↦ elim (merge_class seen (apply_fold fold k)) [
      | err e ↦ err e
      | ok seen' ↦ class_loop types fold seen'
    ]
  ]
]

unfoldable pub classify_types_fold :
    List DataType → Option (OrderKind → OrderKind) → Result ClassError OrderKind
unfolding class_loop
classify_types_fold types fold = elim (class_loop types fold none) [
  | err e ↦ err e
  | ok none ↦ err no_scalar_type
  | ok (some kind) ↦ ok kind
]

unfoldable pub classify_type : List DataType → Result ClassError OrderKind
unfolding classify_types_fold
classify_type types = classify_types_fold types none

-- `no_source` is the zero value.
pub data FieldSource : Type 0 where
  no_source source_data source_meta : FieldSource

pub record MetaField : Type 0 where
  pub source : FieldSource
  pub path : Bytes
  pub kind : OrderKind

abbrev pub meta_field : Bytes → OrderKind → Bytes × MetaField
meta_field name kind = (name, record { source = source_meta; path = name; kind = kind })

abbrev pub sortable_meta_fields : List (Bytes × MetaField)
sortable_meta_fields =
    meta_field (codes "state") order_text
    ∷ meta_field (codes "creationDate") order_temporal
    ∷ meta_field (codes "lastUpdateTime") order_temporal
    ∷ meta_field (codes "transitionForLatestSave") order_text
    ∷ meta_field (codes "transactionId") order_text
    ∷ meta_field (codes "id") order_text
    ∷ []

unfoldable pub resolve_meta_field : Bytes → Option MetaField
resolve_meta_field name = switch sortable_meta_fields name

-- `sort.Strings`, as an insertion sort.
unfoldable pub insert_name : Bytes → List Bytes → List Bytes
insert_name n [] = n ∷ []
insert_name n (m ∷ ms) = if before_bytes m n then m ∷ insert_name n ms else n ∷ m ∷ ms

unfoldable pub sort_names : List Bytes → List Bytes
unfolding insert_name
sort_names [] = []
sort_names (n ∷ ns) = insert_name n (sort_names ns)

unfoldable pub meta_field_names : List Bytes
unfolding sort_names
meta_field_names = sort_names (map (λ f. f.0) sortable_meta_fields)

unfoldable pub is_temporal_meta_field : Bytes → Bool
unfolding resolve_meta_field kind_index
is_temporal_meta_field field = elim (resolve_meta_field field) [
  | none ↦ false
  | some mf ↦ kind_index mf.kind == kind_index order_temporal
]
