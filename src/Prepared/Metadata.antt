-- ===== src/Prepared/Metadata.antt =====
-- filter_match.go: the closed vocabulary of the metadata that a filter may name, and its values.
use cyoda_go_spi.Base.{
  Bool, true, false, List, [], ◌∷◌, Option, none, some, Bytes, codes, ◌/◌, if◌then◌else◌,
}
use cyoda_go_spi.Base.Int.{ℤ, pos, negsuc, eqb_ℤ}
use cyoda_go_spi.Entities.{Instant, EntityMeta}
use cyoda_go_spi.Operators.{switch}

-- The value of a metadata field: a text, a number, or an instant.
pub data MetaValue : Type 0 where
  meta_text : Bytes → MetaValue
  meta_number : ℤ → MetaValue
  meta_time : Instant → MetaValue

-- The zero `time.Time`, the start of the year 1, in nanoseconds of the Unix epoch.
abbrev pub zero_time : Instant
zero_time = negsuc 62135596799999999999

-- `timeToMicro`; `UnixMicro` rounds down, and gives no defined result outside an int64.
unfoldable pub time_to_micro : Instant → ℤ
time_to_micro t = if eqb_ℤ t zero_time then pos 0 else micros t
  where
    micros : Instant → ℤ
    micros (pos n) = pos (n / 1000)
    micros (negsuc n) = negsuc (n / 1000)

abbrev pub meta_cases : List (Bytes × (EntityMeta → MetaValue))
meta_cases =
    (codes "entity_id", λ m. meta_text m.id)
    ∷ (codes "state", λ m. meta_text m.state)
    ∷ (codes "version", λ m. meta_number m.version)
    ∷ (codes "created_at", λ m. meta_number (time_to_micro m.creation_date))
    ∷ (codes "updated_at", λ m. meta_number (time_to_micro m.last_modified_date))
    ∷ (codes "model_name", λ m. meta_text m.model_ref.entity_name)
    ∷ (codes "model_version", λ m. meta_text m.model_ref.model_version)
    ∷ (codes "change_type", λ m. meta_text m.change_type)
    ∷ (codes "transaction_id", λ m. meta_text m.transaction_id)
    ∷ (codes "id", λ m. meta_text m.id)
    ∷ (codes "creationDate", λ m. meta_time m.creation_date)
    ∷ (codes "lastUpdateTime", λ m. meta_time m.last_modified_date)
    ∷ (codes "transitionForLatestSave", λ m. meta_text m.transition_for_latest_save)
    ∷ (codes "transactionId", λ m. meta_text m.transaction_id)
    ∷ []

unfoldable pub extract_filter_meta_value : Bytes → EntityMeta → Option MetaValue
extract_filter_meta_value path meta = elim (switch meta_cases path) [
  | none ↦ none
  | some read ↦ some (read meta)
]

-- Asked of the zero `EntityMeta` in the source: whether a case is found does not depend on it.
unfoldable pub is_recognized_meta_path : Bytes → Bool
is_recognized_meta_path path = elim (switch meta_cases path) [ none ↦ false | some read ↦ true ]

-- `metaGjsonResult`: an unset time is no value.
unfoldable pub meta_value : Bytes → EntityMeta → Option MetaValue
unfolding extract_filter_meta_value
meta_value path meta = elim (extract_filter_meta_value path meta) [
  | none ↦ none
  | some (meta_time t) ↦ if eqb_ℤ t zero_time then none else some (meta_time t)
  | some v ↦ some v
]
