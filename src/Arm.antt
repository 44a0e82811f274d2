-- ===== src/Arm.antt =====
-- persistence.go and scheduled_task_helpers.go: a request to reconcile the tasks of an entity, and
-- `ValidateArm`. A nil error is `none`; an error carries what its text names.
pub mod Exact
mod Tests
use cyoda_go_spi.Base.{
  Bool, true, false, List, [], ◌∷◌, Option, none, some, Bytes, if◌then◌else◌, any_of,
}
use cyoda_go_spi.Operators.{same_bytes}
use cyoda_go_spi.Claims.{ScheduledTask}

pub record ReconcileRequest : Type 0 where
  pub tenant_id : Bytes
  pub entity_id : Bytes
  pub current_state : Bytes
  pub arm : List ScheduledTask
  pub cancel : List Bytes

pub data ArmError : Type 0 where
  without_id : Bytes → ArmError
  armed_and_cancelled : Bytes → Bytes → ArmError

-- The first loop.
abbrev pub nameless : ScheduledTask → Bool
nameless a = same_bytes a.id []

-- `cancelled[id]`
abbrev pub cancelled : List Bytes → Bytes → Bool
cancelled cancel id = any_of (λ c. same_bytes c id) cancel

-- The second loop.
unfoldable pub first_cancelled : List Bytes → List ScheduledTask → Option Bytes
first_cancelled cancel [] = none
first_cancelled cancel (a ∷ arm) =
    let later = first_cancelled cancel arm in if cancelled cancel a.id then some a.id else later

unfoldable pub refuse : Bytes → Option Bytes → Option ArmError
refuse entity none = none
refuse entity (some id) = some (armed_and_cancelled id entity)

unfoldable pub validate_arm : ReconcileRequest → Option ArmError
validate_arm req =
    if any_of nameless req.arm
    then some (without_id req.entity_id)
    else refuse req.entity_id (first_cancelled req.cancel req.arm)
