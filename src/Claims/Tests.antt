-- ===== src/Claims/Tests.antt =====
-- A choice from four tasks of two tenants: the first tenant has two tasks of one entity.
use cyoda_go_spi.Base.{ℕ, ◌≡◌, refl, ◌≤◌, List, [], ◌∷◌, some, Bytes, length, All, In, codes}
use cyoda_go_spi.Base.Int.{pos, ◌-ℤ◌}
use cyoda_go_spi.Claims.{
  ScheduledTask, ClaimRequest, select_claims, sort_tasks, insert_task, earlier, enqueue,
  enqueue_all, next_unseen, serve, take_turn, round, rounds,
}
use cyoda_go_spi.Claims.Limits.{select_claims-Selected}
use cyoda_go_spi.Claims.Distinct.{Distinct, select_claims-Distinct}

abbrev task : Bytes → Bytes → Bytes → ℕ → ScheduledTask
task i t e n = record { id = i; tenant_id = t; entity_id = e; next_attempt_time = pos n }

abbrev candidates : List ScheduledTask
candidates =
    task (codes "d") (codes "B") (codes "y") 7
    ∷ task (codes "b") (codes "A") (codes "x") 4
    ∷ task (codes "c") (codes "A") (codes "z") 5
    ∷ task (codes "a") (codes "A") (codes "x") 3
    ∷ []

abbrev request : ClaimRequest
request = record { limit = pos 3; per_tenant_limit = pos 3; tenant_in_progress = λ t. pos 1 }

select_claims-Selected_example :
    (out : List ScheduledTask) × (select_claims candidates request ≡ some out)
    × (length out ≤ 3)
    × All (λ c. In c candidates) out
select_claims-Selected_example = select_claims-Selected candidates request

-- The tenants take turns, and the second task of entity `x` is passed over.
in_turns :
    select_claims candidates request
    ≡ some (
        task (codes "a") (codes "A") (codes "x") 3
        ∷ task (codes "d") (codes "B") (codes "y") 7
        ∷ task (codes "c") (codes "A") (codes "z") 5
        ∷ [])
unfolding select_claims sort_tasks insert_task earlier enqueue enqueue_all next_unseen serve
    take_turn round rounds ◌-ℤ◌
in_turns = refl

select_claims-Distinct_example :
    (out : List ScheduledTask) × (select_claims candidates request ≡ some out) × Distinct out
select_claims-Distinct_example = select_claims-Distinct candidates request
