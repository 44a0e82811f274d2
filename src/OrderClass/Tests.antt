-- ===== src/OrderClass/Tests.antt =====
-- Classes and the metadata vocabulary at concrete types and names.
use cyoda_go_spi.Base.{◌≡◌, ◌↔◌, refl, none, codes, [], ◌∷◌, true, not, All, any_of, ok, err}
use cyoda_go_spi.Types.{long, double, null, string, local_date, same}
use cyoda_go_spi.OrderClass.{
  order_numeric, classify_types_fold, classify_type, class_loop, scalar_class, merge_class,
  apply_fold, is_text_type, is_temporal_type, kind_index, mixed_classes, no_scalar_type,
  meta_field_names, sort_names, insert_name, resolve_meta_field, is_temporal_meta_field,
}
use cyoda_go_spi.OrderClass.Classes.{InClass, classify_types_fold-InClass}

classify_types_fold-InClass_example :
    (classify_types_fold (long ∷ null ∷ double ∷ []) none ≡ ok order_numeric) ↔ (
      All (InClass none order_numeric) (long ∷ null ∷ double ∷ [])
      × (any_of (λ t. not (same t null)) (long ∷ null ∷ double ∷ []) ≡ true))
classify_types_fold-InClass_example =
    classify_types_fold-InClass none order_numeric (long ∷ null ∷ double ∷ [])

mixed : classify_type (local_date ∷ string ∷ []) ≡ err mixed_classes
unfolding classify_type classify_types_fold class_loop scalar_class merge_class apply_fold
    is_text_type is_temporal_type kind_index
mixed = refl

only_null : classify_type (null ∷ []) ≡ err no_scalar_type
unfolding classify_type classify_types_fold class_loop
only_null = refl

names :
    meta_field_names
    ≡ codes "creationDate"
      ∷ codes "id"
      ∷ codes "lastUpdateTime"
      ∷ codes "state"
      ∷ codes "transactionId"
      ∷ codes "transitionForLatestSave"
      ∷ []
unfolding meta_field_names sort_names insert_name
names = refl

temporal : is_temporal_meta_field (codes "creationDate") ≡ true
unfolding is_temporal_meta_field resolve_meta_field kind_index
temporal = refl
