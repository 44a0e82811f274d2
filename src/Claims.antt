-- ===== src/Claims.antt =====
-- scheduled_task_helpers.go: the choice of the tasks that one claim takes, and the validation of the
-- requests. Of a task the fields that these functions read are modelled (types.go). The maps
-- `quota`, `queues` and `seen` are kept together for each tenant: a `Turn` holds the tenant with the
-- quota and the queue that are left, and `seen`, whose keys name the tenant, is one set of pairs.
pub mod Limits
pub mod Distinct
mod Tests
use cyoda_go_spi.Base.{
  ℕ, zero, suc, ◌+◌, ◌==◌, ltb, leb, Bool, true, false, not, ◌&&◌, ◌||◌, List, [], ◌∷◌, ◌++◌,
  Option, none, some, Bytes, if◌then◌else◌, length, keep, any_of, map,
}
use cyoda_go_spi.Base.Int.{ℤ, pos, negsuc, ◌-ℤ◌, ltb_ℤ, leb_ℤ, eqb_ℤ}
use cyoda_go_spi.Operators.{same_bytes, before_bytes}

pub record ScheduledTask : Type 0 where
  pub id : Bytes
  pub tenant_id : Bytes
  pub entity_id : Bytes
  pub next_attempt_time : ℤ

-- `tenant_in_progress` is 0 for a tenant that the map does not hold.
pub record ClaimRequest : Type 0 where
  pub limit : ℤ
  pub per_tenant_limit : ℤ
  pub tenant_in_progress : Bytes → ℤ

-- The order of the candidates.
unfoldable pub earlier : ScheduledTask → ScheduledTask → Bool
earlier a b =
    if not (eqb_ℤ a.next_attempt_time b.next_attempt_time)
    then ltb_ℤ a.next_attempt_time b.next_attempt_time
    else if not (same_bytes a.tenant_id b.tenant_id)
    then before_bytes a.tenant_id b.tenant_id
    else before_bytes a.id b.id

pub insert_task : ScheduledTask → List ScheduledTask → List ScheduledTask
insert_task t [] = t ∷ []
insert_task t (c ∷ cs) = let rest = insert_task t cs in if earlier c t then c ∷ rest else t ∷ c ∷ cs

pub sort_tasks : List ScheduledTask → List ScheduledTask
sort_tasks [] = []
sort_tasks (c ∷ cs) = insert_task c (sort_tasks cs)

pub record Turn : Type 0 where
  pub tenant : Bytes
  pub quota : ℤ
  pub queue : List ScheduledTask

-- `queues[c.TenantID] = append(...)`, and a new tenant behind the others.
pub enqueue : ClaimRequest → ScheduledTask → List Turn → List Turn
enqueue req c [] =
    record {
      tenant = c.tenant_id;
      quota = req.per_tenant_limit -ℤ req.tenant_in_progress c.tenant_id;
      queue = c ∷ [];
    }
    ∷ []
enqueue req c (t ∷ ts) =
    let beyond = enqueue req c ts in
    if same_bytes t.tenant c.tenant_id
    then record t { queue = t.queue ++ c ∷ [] } ∷ ts
    else t ∷ beyond

pub enqueue_all : ClaimRequest → List ScheduledTask → List Turn → List Turn
enqueue_all req [] ts = ts
enqueue_all req (c ∷ cs) ts = enqueue_all req cs (enqueue req c ts)

-- `entityKey`
abbrev pub EntityKey : Type 0
EntityKey = Bytes × Bytes

abbrev pub same_key : EntityKey → EntityKey → Bool
same_key (a, b) (c, d) = same_bytes a c && same_bytes b d

-- The inner loop, while the quota lasts: the first task in the queue whose entity was not seen, and
-- the queue behind it.
pub next_unseen :
    Bytes → List EntityKey → List ScheduledTask → Option (ScheduledTask × List ScheduledTask)
next_unseen tn seen [] = none
next_unseen tn seen (c ∷ cs) =
    let later = next_unseen tn seen cs in
    if any_of (same_key (tn, c.entity_id)) seen then later else some (c, cs)

-- `seen` and `out`.
pub record Chosen : Type 0 where
  pub seen : List EntityKey
  pub out : List ScheduledTask

abbrev pub full : ClaimRequest → Chosen → Bool
full req ch = leb_ℤ req.limit (pos (length ch.out))

-- What a found task changes: the quota, `seen` and `out`. Without one the queue is used up.
pub serve : Turn → Chosen → Option (ScheduledTask × List ScheduledTask) → Turn × Chosen
serve t ch none = (record t { queue = [] }, ch)
serve t ch (some (c, rest)) = (
  record { tenant = t.tenant; quota = t.quota -ℤ pos 1; queue = rest },
  record { seen = (t.tenant, c.entity_id) ∷ ch.seen; out = ch.out ++ c ∷ [] },
)

-- One tenant's turn.
pub take_turn : Turn → Chosen → Turn × Chosen
take_turn t ch =
    if ltb_ℤ (pos 0) t.quota then serve t ch (next_unseen t.tenant ch.seen t.queue) else (t, ch)

-- `for _, tn := range tenants`
pub round : ClaimRequest → List Turn → Chosen → List Turn × Chosen
round req [] ch = ([], ch)
round req (t ∷ ts) ch =
    let turn = take_turn t ch in
    let rest = round req ts turn.1 in
    if full req ch then (t ∷ ts, ch) else (turn.0 ∷ rest.0, rest.1)

-- The outer loop; a round made progress if it lengthened `out`. `none` if the rounds were too few.
pub rounds : ℕ → ClaimRequest → List Turn → Chosen → Option (List ScheduledTask)
rounds zero req ts ch = none
rounds (suc n) req ts ch =
    let r = round req ts ch in
    let later = rounds n req r.0 r.1 in
    if full req ch
    then some ch.out
    else if length r.1.out == length ch.out
    then some r.1.out
    else later

pub select_claims : List ScheduledTask → ClaimRequest → Option (List ScheduledTask)
select_claims cands req =
    rounds (length cands + 1) req (enqueue_all req (sort_tasks cands) [])
      (record { seen = []; out = [] })
