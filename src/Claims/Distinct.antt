-- ===== src/Claims/Distinct.antt =====
-- One entity is claimed once.
use cyoda_go_spi.Base.{
  ℕ, zero, suc, ◌+◌, ◌≡◌, ◌≢◌, inl, inr, refl, sym, ◌∙◌, subst, Bool, true, false, ◌||◌, List, [],
  ◌∷◌, ◌++◌, Option, none, some, Bytes, length, any_of, All, All-append, Bool-cases, false≢true,
  ◌==◌,
}
use cyoda_go_spi.Base.Int.{pos, ltb_ℤ}
use cyoda_go_spi.Operators.{same_bytes}
use cyoda_go_spi.Operators.Names.{same_bytes-eq, same_bytes_self}
use cyoda_go_spi.Claims.{
  ScheduledTask, ClaimRequest, Turn, enqueue, enqueue_all, EntityKey, same_key, sort_tasks,
  next_unseen, Chosen, full, serve, take_turn, round, rounds, select_claims,
}
use cyoda_go_spi.Claims.Limits.{select_claims-Selected, Unseen, next_unseen-Unseen}

-- The entity of a task, with its tenant.
abbrev pub entity_of : ScheduledTask → EntityKey
entity_of c = (c.tenant_id, c.entity_id)

-- No two tasks of the list are of one entity.
abbrev pub Distinct : List ScheduledTask → Type 0
Distinct [] = Unit
Distinct (c ∷ cs) = All (λ d. entity_of c ≢ entity_of d) cs × Distinct cs

Distinct-append :
    (cs : List ScheduledTask) (c : ScheduledTask)
    → Distinct cs
    → All (λ d. entity_of d ≢ entity_of c) cs
    → Distinct (cs ++ c ∷ [])
Distinct-append [] c d n = (tt, tt)
Distinct-append (x ∷ cs) c (a, d) (n, ns) =
    (All-append (λ e. entity_of x ≢ entity_of e) cs (c ∷ []) a (n, tt), Distinct-append cs c d ns)

-- The key of `c` is among those seen.
abbrev Marked : List EntityKey → ScheduledTask → Type 0
Marked seen c = any_of (same_key (entity_of c)) seen ≡ true

or_true : (a b : Bool) → b ≡ true → (a || b) ≡ true
or_true true b h = refl
or_true false b h = h

Marked-later :
    (k : EntityKey) (seen : List EntityKey) (cs : List ScheduledTask)
    → All (Marked seen) cs
    → All (Marked (k ∷ seen)) cs
Marked-later k seen [] h = tt
Marked-later k seen (c ∷ cs) (m, h) =
    (or_true (same_key (entity_of c) k) _ m, Marked-later k seen cs h)

Marked-first : (c : ScheduledTask) (seen : List EntityKey) → Marked (entity_of c ∷ seen) c
Marked-first c seen = rw (same_bytes_self c.tenant_id, same_bytes_self c.entity_id)

unseen-apart :
    (seen : List EntityKey) (c : ScheduledTask) (cs : List ScheduledTask)
    → any_of (same_key (entity_of c)) seen ≡ false
    → All (Marked seen) cs
    → All (λ d. entity_of d ≢ entity_of c) cs
unseen-apart seen c [] u h = tt
unseen-apart seen c (d ∷ cs) u (m, h) = (
  λ e. false≢true (sym u ∙ subst (λ k. any_of (same_key k) seen ≡ true) e m),
  unseen-apart seen c cs u h,
)

-- The tasks in a tenant's queue are the tenant's.
abbrev Owned : Bytes → ScheduledTask → Type 0
Owned tn c = c.tenant_id ≡ tn

OwnedTurns : List Turn → Type 0
OwnedTurns ts = All (λ t. All (Owned t.tenant) t.queue) ts

enqueue-Owned :
    (req : ClaimRequest) (c : ScheduledTask) (ts : List Turn)
    → OwnedTurns ts
    → OwnedTurns (enqueue req c ts)
unfolding enqueue OwnedTurns
enqueue-Owned req c [] qs = ((refl, tt), tt)
enqueue-Owned req c (t ∷ ts) (q, qs) = elim (Bool-cases (same_bytes t.tenant c.tenant_id)) [
  | inl e ↦
      rw e (All-append (Owned t.tenant) t.queue (c ∷ []) q (sym (same_bytes-eq _ _ e), tt), qs)
  | inr e ↦ rw e (q, enqueue-Owned req c ts qs)
]

enqueue_all-Owned :
    (req : ClaimRequest) (cs : List ScheduledTask) (ts : List Turn)
    → OwnedTurns ts
    → OwnedTurns (enqueue_all req cs ts)
unfolding enqueue_all
enqueue_all-Owned req [] ts qs = qs
enqueue_all-Owned req (c ∷ cs) ts qs =
    enqueue_all-Owned req cs (enqueue req c ts) (enqueue-Owned req c ts qs)

-- What the inner loop finds was not seen.
abbrev Fresh : Bytes → List EntityKey → Option (ScheduledTask × List ScheduledTask) → Type 0
Fresh tn seen none = Unit
Fresh tn seen (some (c, rest)) = any_of (same_key (tn, c.entity_id)) seen ≡ false

next_unseen-Fresh :
    (tn : Bytes) (seen : List EntityKey) (cs : List ScheduledTask)
    → Fresh tn seen (next_unseen tn seen cs)
unfolding next_unseen
next_unseen-Fresh tn seen [] = tt
next_unseen-Fresh tn seen (c ∷ cs) = elim (Bool-cases (any_of (same_key (tn, c.entity_id)) seen)) [
  | inl e ↦ rw e (next_unseen-Fresh tn seen cs)
  | inr e ↦ rw e e
]

abbrev Apart : Chosen → Type 0
Apart ch = Distinct ch.out × All (Marked ch.seen) ch.out

serve-Apart :
    (t : Turn) (ch : Chosen) (r : Option (ScheduledTask × List ScheduledTask))
    → Apart ch
    → Unseen (Owned t.tenant) t.queue r
    → Fresh t.tenant ch.seen r
    → Apart (serve t ch r).1 × All (Owned (serve t ch r).0.tenant) (serve t ch r).0.queue
unfolding serve
serve-Apart t ch none a u f = (a, tt)
serve-Apart t ch (some (c, rest)) (d, m) (l, o, os) f = ((distinct, marked), os)
  where
    unseen : any_of (same_key (entity_of c)) ch.seen ≡ false
    unseen = subst (λ tn. any_of (same_key (tn, c.entity_id)) ch.seen ≡ false) (sym o) f

    distinct : Distinct (ch.out ++ c ∷ [])
    distinct = Distinct-append ch.out c d (unseen-apart ch.seen c ch.out unseen m)

    marked : All (Marked ((t.tenant, c.entity_id) ∷ ch.seen)) (ch.out ++ c ∷ [])
    marked =
        subst (λ tn. All (Marked ((tn, c.entity_id) ∷ ch.seen)) (ch.out ++ c ∷ [])) o
          (All-append (Marked (entity_of c ∷ ch.seen)) ch.out (c ∷ [])
            (Marked-later (entity_of c) ch.seen ch.out m) (Marked-first c ch.seen, tt))

take_turn-Apart :
    (t : Turn) (ch : Chosen)
    → Apart ch
    → All (Owned t.tenant) t.queue
    → Apart (take_turn t ch).1 × All (Owned (take_turn t ch).0.tenant) (take_turn t ch).0.queue
unfolding take_turn
take_turn-Apart t ch a q = elim (Bool-cases (ltb_ℤ (pos 0) t.quota)) [
  | inl e ↦ rw e (
      serve-Apart t ch (next_unseen t.tenant ch.seen t.queue) a
        (next_unseen-Unseen (Owned t.tenant) t.tenant ch.seen t.queue q)
        (next_unseen-Fresh t.tenant ch.seen t.queue))
  | inr e ↦ rw e (a, q)
]

round-Apart :
    (req : ClaimRequest) (ts : List Turn) (ch : Chosen)
    → Apart ch
    → OwnedTurns ts
    → Apart (round req ts ch).1 × OwnedTurns (round req ts ch).0
unfolding round OwnedTurns
round-Apart req [] ch a qs = (a, tt)
round-Apart req (t ∷ ts) ch a (q, qs) = elim (Bool-cases (full req ch)) [
  | inl e ↦ rw e (a, (q, qs))
  | inr e ↦
      let (b, p) = take_turn-Apart t ch a q in
      let (c, ps) = round-Apart req ts (take_turn t ch).1 b qs in rw e (c, (p, ps))
]

-- A choice that is there names no entity twice.
abbrev OnceEach : Option (List ScheduledTask) → Type 0
OnceEach none = Unit
OnceEach (some out) = Distinct out

rounds-OnceEach :
    (n : ℕ) (req : ClaimRequest) (ts : List Turn) (ch : Chosen)
    → Apart ch
    → OwnedTurns ts
    → OnceEach (rounds n req ts ch)
unfolding rounds
rounds-OnceEach zero req ts ch a qs = tt
rounds-OnceEach (suc n) req ts ch a qs = elim (Bool-cases (full req ch)) [
  | inl e ↦ rw e a.0
  | inr e ↦
      let (b, ps) = round-Apart req ts ch a qs in
      elim (Bool-cases (length (round req ts ch).1.out == length ch.out)) [
        | inl h ↦ rw (e, h) b.0
        | inr h ↦ rw (e, h) (rounds-OnceEach n req (round req ts ch).0 (round req ts ch).1 b ps)
      ]
]

-- No two tasks of the choice are of one entity of one tenant.
pub select_claims-Distinct :
    (cands : List ScheduledTask) (req : ClaimRequest)
    → (out : List ScheduledTask) × (select_claims cands req ≡ some out) × Distinct out
unfolding select_claims OwnedTurns
select_claims-Distinct cands req =
    let (out, e, l, i) = select_claims-Selected cands req in
    (
      out,
      e,
      subst OnceEach e (
          rounds-OnceEach (length cands + 1) req (enqueue_all req (sort_tasks cands) [])
            (record { seen = []; out = [] }) (tt, tt)
            (enqueue_all-Owned req (sort_tasks cands) [] tt)),
    )
