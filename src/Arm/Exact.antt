-- ===== src/Arm/Exact.antt =====
-- Which requests `ValidateArm` accepts.
use cyoda_go_spi.Base.{
  ◌≡◌, ◌≢◌, ◌↔◌, inl, inr, refl, sym, ap, ◌∙◌, subst, Bool, true, false, List, [], ◌∷◌, Option,
  none, some, Bytes, any_of, All, In, Bool-cases, false≢true, ◌||◌,
}
use cyoda_go_spi.Operators.{same_bytes}
use cyoda_go_spi.Operators.Names.{same_bytes-eq, same_bytes_self, any_of-In}
use cyoda_go_spi.Claims.{ScheduledTask}
use cyoda_go_spi.Arm.{
  ReconcileRequest, without_id, nameless, cancelled, first_cancelled, refuse, validate_arm,
}

In-any_of :
    (name : Bytes) (names : List Bytes)
    → In name names
    → any_of (λ n. same_bytes n name) names ≡ true
In-any_of name [] i = elim i [ ]
In-any_of name (n ∷ names) (inl e) = first n e (any_of (λ m. same_bytes m name) names)
  where
    first : (n : Bytes) → n ≡ name → (b : Bool) → (same_bytes n name || b) ≡ true
    first n e b = subst (λ m. (same_bytes m name || b) ≡ true) (sym e) (rw (same_bytes_self name))
In-any_of name (n ∷ names) (inr i) = second (same_bytes n name) _ (In-any_of name names i)
  where
    second : (a b : Bool) → b ≡ true → (a || b) ≡ true
    second true b h = refl
    second false b h = h

-- A task that is armed by name and not cancelled.
abbrev pub Armable : List Bytes → ScheduledTask → Type 0
Armable cancel a = (a.id ≢ []) × (¬ In a.id cancel)

both_false : (a b : Bool) → (a || b) ≡ false → (a ≡ false) × (b ≡ false)
both_false true b h = absurd (false≢true (sym h))
both_false false b h = (refl, h)

module _ (cancel : List Bytes) (a : ScheduledTask) (arm : List ScheduledTask) where
  first_cancelled_here : cancelled cancel a.id ≡ true → first_cancelled cancel (a ∷ arm) ≡ some a.id
  unfolding first_cancelled
  first_cancelled_here e = rw e

  first_cancelled_later :
      cancelled cancel a.id ≡ false → first_cancelled cancel (a ∷ arm) ≡ first_cancelled cancel arm
  unfolding first_cancelled
  first_cancelled_later e = rw e

  armable : nameless a ≡ false → cancelled cancel a.id ≡ false → Armable cancel a
  armable n e = (
    λ z. false≢true (sym n ∙ subst (λ i. same_bytes i [] ≡ true) (sym z) refl),
    λ i. false≢true (sym e ∙ In-any_of a.id cancel i),
  )

refuse-none : (entity : Bytes) (r : Option Bytes) → refuse entity r ≡ none → r ≡ none
unfolding refuse
refuse-none entity none h = refl
refuse-none entity (some id) h = cc h

accepts-All :
    (cancel : List Bytes) (arm : List ScheduledTask)
    → any_of nameless arm ≡ false
    → first_cancelled cancel arm ≡ none
    → All (Armable cancel) arm
accepts-All cancel [] n h = tt
accepts-All cancel (a ∷ arm) n h =
    let (x, y) = both_false (nameless a) (any_of nameless arm) n in
    elim (Bool-cases (cancelled cancel a.id)) [
      | inl e ↦ absurd (cc (sym (first_cancelled_here cancel a arm e) ∙ h))
      | inr e ↦ (
        armable cancel a arm x e,
        accepts-All cancel arm y (sym (first_cancelled_later cancel a arm e) ∙ h),
      )
    ]

All-nameless :
    (cancel : List Bytes) (arm : List ScheduledTask)
    → All (Armable cancel) arm
    → any_of nameless arm ≡ false
All-nameless cancel [] h = refl
All-nameless cancel (a ∷ arm) ((p, q), h) = elim (Bool-cases (nameless a)) [
  | inl e ↦ absurd (p (same_bytes-eq a.id [] e))
  | inr e ↦ rw (e, All-nameless cancel arm h)
]

All-first_cancelled :
    (cancel : List Bytes) (arm : List ScheduledTask)
    → All (Armable cancel) arm
    → first_cancelled cancel arm ≡ none
unfolding first_cancelled
All-first_cancelled cancel [] h = refl
All-first_cancelled cancel (a ∷ arm) ((p, q), h) = elim (Bool-cases (cancelled cancel a.id)) [
  | inl e ↦ absurd (q (any_of-In a.id cancel e))
  | inr e ↦ first_cancelled_later cancel a arm e ∙ All-first_cancelled cancel arm h
]

-- A request is accepted exactly if each task to arm has an id that is not among those to cancel.
pub validate_arm-Armable :
    (req : ReconcileRequest) → (validate_arm req ≡ none) ↔ All (Armable req.cancel) req.arm
unfolding validate_arm refuse
validate_arm-Armable req = (accepted, allowed)
  where
    stopped : any_of nameless req.arm ≡ true → validate_arm req ≡ some (without_id req.entity_id)
    stopped e = rw e

    onward :
        any_of nameless req.arm ≡ false
        → validate_arm req ≡ refuse req.entity_id (first_cancelled req.cancel req.arm)
    onward e = rw e

    accepted : validate_arm req ≡ none → All (Armable req.cancel) req.arm
    accepted h = elim (Bool-cases (any_of nameless req.arm)) [
      | inl e ↦ absurd (cc (sym (stopped e) ∙ h))
      | inr e ↦ accepts-All req.cancel req.arm e (refuse-none req.entity_id _ (sym (onward e) ∙ h))
    ]

    allowed : All (Armable req.cancel) req.arm → validate_arm req ≡ none
    allowed h =
        onward (All-nameless req.cancel req.arm h)
        ∙ ap (refuse req.entity_id) (All-first_cancelled req.cancel req.arm h)
