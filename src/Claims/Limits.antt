-- ===== src/Claims/Limits.antt =====
-- What a choice of claims never exceeds, and that it ends.
use cyoda_go_spi.Base.{
  ℕ, zero, suc, ◌+◌, ◌≤◌, ◌<◌, ◌≡◌, refl, inl, inr, false, List, [], ◌∷◌, Option, none, some, Bytes,
  length, any_of, All, All-append, In, arith, Bool-cases, length-append, ◌==◌,
}
use cyoda_go_spi.Base.Int.{pos, pos_part, ltb_ℤ}
use cyoda_go_spi.Claims.{
  ScheduledTask, ClaimRequest, insert_task, sort_tasks, earlier, Turn, enqueue, enqueue_all,
  EntityKey, same_key, next_unseen, Chosen, full, serve, take_turn, round, rounds, select_claims,
}
use cyoda_go_spi.Operators.{same_bytes}

below :
    (req : ClaimRequest) (ch : Chosen)
    → full req ch ≡ false
    → length ch.out + 1 ≤ pos_part req.limit
below req ch e = ground arith

-- The tasks that still stand in queues.
pub queued : List Turn → ℕ
queued [] = 0
queued (t ∷ ts) = length t.queue + queued ts

module _ (P : ScheduledTask → Type 0) where
  Queues : List Turn → Type 0
  Queues ts = All (λ t. All P t.queue) ts

  insert_task-All :
      (t : ScheduledTask) (cs : List ScheduledTask) → P t → All P cs → All P (insert_task t cs)
  unfolding insert_task
  insert_task-All t [] p ps = (p, tt)
  insert_task-All t (c ∷ cs) p (q, ps) = elim (Bool-cases (earlier c t)) [
    | inl e ↦ rw e (q, insert_task-All t cs p ps)
    | inr e ↦ rw e (p, (q, ps))
  ]

  sort_tasks-All : (cs : List ScheduledTask) → All P cs → All P (sort_tasks cs)
  unfolding sort_tasks
  sort_tasks-All [] ps = tt
  sort_tasks-All (c ∷ cs) (p, ps) = insert_task-All c (sort_tasks cs) p (sort_tasks-All cs ps)

  enqueue-Queues :
      (req : ClaimRequest) (c : ScheduledTask) (ts : List Turn)
      → P c
      → Queues ts
      → Queues (enqueue req c ts)
  unfolding enqueue Queues
  enqueue-Queues req c [] p qs = ((p, tt), tt)
  enqueue-Queues req c (t ∷ ts) p (q, qs) = elim (Bool-cases (same_bytes t.tenant c.tenant_id)) [
    | inl e ↦ rw e (All-append P t.queue (c ∷ []) q (p, tt), qs)
    | inr e ↦ rw e (q, enqueue-Queues req c ts p qs)
  ]

  enqueue_all-Queues :
      (req : ClaimRequest) (cs : List ScheduledTask) (ts : List Turn)
      → All P cs
      → Queues ts
      → Queues (enqueue_all req cs ts)
  unfolding enqueue_all
  enqueue_all-Queues req [] ts ps qs = qs
  enqueue_all-Queues req (c ∷ cs) ts (p, ps) qs =
      enqueue_all-Queues req cs (enqueue req c ts) ps (enqueue-Queues req c ts p qs)

  abbrev pub Unseen : List ScheduledTask → Option (ScheduledTask × List ScheduledTask) → Type 0
  Unseen cs none = Unit
  Unseen cs (some (c, rest)) = (length rest < length cs) × P c × All P rest

  Unseen-later :
      (c : ScheduledTask) (cs : List ScheduledTask)
      (r : Option (ScheduledTask × List ScheduledTask))
      → Unseen cs r
      → Unseen (c ∷ cs) r
  Unseen-later c cs none h = tt
  Unseen-later c cs (some (d, rest)) (l, p, ps) = (omega (arith, l), p, ps)

  pub next_unseen-Unseen :
      (tn : Bytes) (seen : List EntityKey) (cs : List ScheduledTask)
      → All P cs
      → Unseen cs (next_unseen tn seen cs)
  unfolding next_unseen
  next_unseen-Unseen tn seen [] ps = tt
  next_unseen-Unseen tn seen (c ∷ cs) (p, ps) =
      elim (Bool-cases (any_of (same_key (tn, c.entity_id)) seen)) [
        | inl e ↦
            rw e (Unseen-later c cs (next_unseen tn seen cs) (next_unseen-Unseen tn seen cs ps))
        | inr e ↦ rw e (omega arith, p, ps)
      ]

  -- A turn takes a task or none; no task is chosen that did not stand in the queue.
  abbrev Turned : Turn → Chosen → Turn × Chosen → Type 0
  Turned t ch r =
      (length r.1.out + length r.0.queue ≤ length ch.out + length t.queue)
      × (length ch.out ≤ length r.1.out)
      × (length r.1.out ≤ length ch.out + 1)
      × All P r.0.queue
      × All P r.1.out

  serve-Turned :
      (t : Turn) (ch : Chosen) (r : Option (ScheduledTask × List ScheduledTask))
      → All P t.queue
      → All P ch.out
      → Unseen t.queue r
      → Turned t ch (serve t ch r)
  unfolding serve
  serve-Turned t ch none q o u = (omega arith, omega arith, omega arith, tt, o)
  serve-Turned t ch (some (c, rest)) q o (l, p, ps) =
      let longer = length-append ch.out (c ∷ []) in
      (
        omega (arith, longer, l),
        omega (arith, longer),
        omega (arith, longer),
        ps,
        All-append P ch.out (c ∷ []) o (p, tt),
      )

  take_turn-Turned :
      (t : Turn) (ch : Chosen) → All P t.queue → All P ch.out → Turned t ch (take_turn t ch)
  unfolding take_turn
  take_turn-Turned t ch q o = elim (Bool-cases (ltb_ℤ (pos 0) t.quota)) [
    | inl e ↦ rw e (serve-Turned t ch _ q o (next_unseen-Unseen t.tenant ch.seen t.queue q))
    | inr e ↦ rw e (omega arith, omega arith, omega arith, q, o)
  ]

  -- A round keeps the limit, and what it takes leaves the queues.
  abbrev Rounded : ClaimRequest → List Turn → Chosen → List Turn × Chosen → Type 0
  Rounded req ts ch r =
      (length r.1.out + queued r.0 ≤ length ch.out + queued ts)
      × (length ch.out ≤ length r.1.out)
      × (length r.1.out ≤ pos_part req.limit)
      × Queues r.0
      × All P r.1.out

  round-Rounded :
      (req : ClaimRequest) (ts : List Turn) (ch : Chosen)
      → length ch.out ≤ pos_part req.limit
      → Queues ts
      → All P ch.out
      → Rounded req ts ch (round req ts ch)
  unfolding round queued Queues
  round-Rounded req [] ch l qs o = (omega arith, omega arith, l, tt, o)
  round-Rounded req (t ∷ ts) ch l (q, qs) o = elim (Bool-cases (full req ch)) [
    | inl e ↦ rw e (omega arith, omega arith, l, (q, qs), o)
    | inr e ↦
        let (a, b, c, d, f) = take_turn-Turned t ch q o in
        let (a', b', c', d', f') =
          round-Rounded req ts (take_turn t ch).1 (omega (arith, c, below req ch e)) qs f in
        rw e (omega (arith, a, a'), omega (arith, b, b'), c', (d, d'), f')
  ]

  -- The outcome of a choice: it is there, within the limit, and all its tasks have the property.
  abbrev Selected : ClaimRequest → Option (List ScheduledTask) → Type 0
  Selected req r =
      (out : List ScheduledTask) × (r ≡ some out) × (length out ≤ pos_part req.limit) × All P out

  rounds-Selected :
      (n : ℕ) (req : ClaimRequest) (ts : List Turn) (ch : Chosen)
      → queued ts < n
      → length ch.out ≤ pos_part req.limit
      → Queues ts
      → All P ch.out
      → Selected req (rounds n req ts ch)
  unfolding rounds
  rounds-Selected zero req ts ch m l qs o = absurd (omega (arith, m))
  rounds-Selected (suc n) req ts ch m l qs o = elim (Bool-cases (full req ch)) [
    | inl e ↦ rw e (ch.out, refl, l, o)
    | inr e ↦
        let (a, b, c, d, f) = round-Rounded req ts ch l qs o in
        elim (Bool-cases (length (round req ts ch).1.out == length ch.out)) [
          | inl h ↦ rw (e, h) ((round req ts ch).1.out, refl, c, f)
          | inr h ↦
              rw (e, h)
                (rounds-Selected n req (round req ts ch).0 (round req ts ch).1 (fewer a b h m) c d
                  f)
        ]
  ]
    where
      fewer : {x y u v : ℕ} → y + v ≤ x + u → x ≤ y → (y == x) ≡ false → u < suc n → v < n
      fewer a b h m = ground arith

queued-enqueue :
    (req : ClaimRequest) (c : ScheduledTask) (ts : List Turn)
    → queued (enqueue req c ts) ≡ suc (queued ts)
unfolding queued enqueue
queued-enqueue req c [] = refl
queued-enqueue req c (t ∷ ts) = elim (Bool-cases (same_bytes t.tenant c.tenant_id)) [
  | inl e ↦ rw e (omega (arith, length-append t.queue (c ∷ [])))
  | inr e ↦ rw e (omega (arith, queued-enqueue req c ts))
]

queued-enqueue_all :
    (req : ClaimRequest) (cs : List ScheduledTask) (ts : List Turn)
    → queued (enqueue_all req cs ts) ≡ length cs + queued ts
unfolding enqueue_all
queued-enqueue_all req [] ts = omega arith
queued-enqueue_all req (c ∷ cs) ts =
    omega (arith, queued-enqueue_all req cs (enqueue req c ts), queued-enqueue req c ts)

length-insert_task :
    (t : ScheduledTask) (cs : List ScheduledTask) → length (insert_task t cs) ≡ suc (length cs)
unfolding insert_task
length-insert_task t [] = refl
length-insert_task t (c ∷ cs) = elim (Bool-cases (earlier c t)) [
  | inl e ↦ rw e (omega (arith, length-insert_task t cs))
  | inr e ↦ rw e
]

length-sort_tasks : (cs : List ScheduledTask) → length (sort_tasks cs) ≡ length cs
unfolding sort_tasks
length-sort_tasks [] = refl
length-sort_tasks (c ∷ cs) =
    omega (arith, length-insert_task c (sort_tasks cs), length-sort_tasks cs)

All-self :
    (cs all : List ScheduledTask)
    → ((c : ScheduledTask) → In c cs → In c all)
    → All (λ c. In c all) cs
All-self [] all h = tt
All-self (c ∷ cs) all h = (h c (inl refl), All-self cs all (λ d i. h d (inr i)))

-- The choice ends. It has no more tasks than the request's limit, none if that is below 0, and each
-- is one of the candidates.
pub select_claims-Selected :
    (cands : List ScheduledTask) (req : ClaimRequest)
    → (out : List ScheduledTask) × (select_claims cands req ≡ some out)
      × (length out ≤ pos_part req.limit)
      × All (λ c. In c cands) out
unfolding select_claims Queues queued
select_claims-Selected cands req =
    rounds-Selected (λ c. In c cands) (length cands + 1) req (enqueue_all req (sort_tasks cands) [])
      (record { seen = []; out = [] })
      (omega (arith, queued-enqueue_all req (sort_tasks cands) [], length-sort_tasks cands))
      (omega arith)
      (enqueue_all-Queues (λ c. In c cands) req (sort_tasks cands) []
        (sort_tasks-All (λ c. In c cands) cands (All-self cands cands (λ c i. i))) tt)
      tt
