-- ===== src/Arm/Tests.antt =====
-- A request that arms one task and cancels another, and one that does both with one task.
use cyoda_go_spi.Base.{◌≡◌, ◌↔◌, refl, All, [], ◌∷◌, none, some, codes}
use cyoda_go_spi.Base.Int.{pos}
use cyoda_go_spi.Claims.{ScheduledTask}
use cyoda_go_spi.Arm.{ReconcileRequest, validate_arm, armed_and_cancelled, first_cancelled, refuse}
use cyoda_go_spi.Arm.Exact.{Armable, validate_arm-Armable}

abbrev armed : ScheduledTask
armed = record { id = codes "t1"; tenant_id = []; entity_id = []; next_attempt_time = pos 0 }

abbrev request : ReconcileRequest
request = record {
  tenant_id = codes "A";
  entity_id = codes "e";
  current_state = codes "open";
  arm = armed ∷ [];
  cancel = codes "t2" ∷ [];
}

validate_arm-Armable_example :
    (validate_arm request ≡ none) ↔ All (Armable request.cancel) request.arm
validate_arm-Armable_example = validate_arm-Armable request

accepted : validate_arm request ≡ none
unfolding validate_arm refuse first_cancelled
accepted = refl

refused :
    validate_arm (record request { cancel = codes "t1" ∷ [] })
    ≡ some (armed_and_cancelled (codes "t1") (codes "e"))
unfolding validate_arm refuse first_cancelled
refused = refl
