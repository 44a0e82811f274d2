-- ===== src/Entities.antt =====
-- types.go: an entity with its metadata. Strings are byte lists, an instant counts nanoseconds.
use cyoda_go_spi.Base.{Bytes}
use cyoda_go_spi.Base.Int.{ℤ}

abbrev pub Instant : Type 0
Instant = ℤ

pub record ModelRef : Type 0 where
  pub entity_name : Bytes
  pub model_version : Bytes

pub record Principal : Type 0 where
  pub id : Bytes
  pub kind : Bytes

pub record EntityMeta : Type 0 where
  pub id : Bytes
  pub tenant_id : Bytes
  pub model_ref : ModelRef
  pub state : Bytes
  pub version : ℤ
  pub creation_date : Instant
  pub last_modified_date : Instant
  pub transaction_id : Bytes
  pub change_type : Bytes
  pub change_user : Bytes
  pub change_user_kind : Bytes
  pub change_executor : Principal
  pub transition_for_latest_save : Bytes

pub record Entity : Type 0 where
  pub meta : EntityMeta
  pub «data» : Bytes
