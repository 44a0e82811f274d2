-- ===== src/Merge/Sticky.antt =====
-- The end and the error of a merge stay.
use cyoda_go_spi.Base.{
  ◌≡◌, refl, sym, ap, subst, ◌∙◌, Bool, true, false, List, [], ◌∷◌, Option, none, some, Bytes, inl,
  inr, if◌then◌else◌, Bool-cases, false≢true,
}
use cyoda_go_spi.Base.Int.{ℤ, pos, leb_ℤ}
use cyoda_go_spi.Entities.{Entity}
use cyoda_go_spi.Merge.{
  Merger, Answer, yields, done, fails, skips, advance_rows, advance, take_next, respond, answer,
  pull,
}

-- The answer is no entity.
abbrev pub last : {Error : Type 0} → Answer Error → Bool
last (yields e) = false
last done = true
last (fails err) = true

module _ {Error : Type 0} (is_deleted : Option (Bytes → Bool)) (cmp : Entity → Entity → ℤ) where
  advance_rows-started :
      (rows : List Entity) (m : Merger Error)
      → (advance_rows is_deleted cmp rows m).started ≡ m.started
  unfolding advance_rows
  advance_rows-started [] m = refl
  advance_rows-started (e ∷ rows) m = elim (Bool-cases (skips is_deleted e)) [
    | inl s ↦ rw s (advance_rows-started rows m)
    | inr s ↦ rw s
  ]

  both_yield :
      (b : Bool) (x y : Answer Error × Merger Error)
      → last x.0 ≡ false
      → last y.0 ≡ false
      → ¬ (last (if b then x else y).0 ≡ true)
  both_yield true x y p q h = false≢true (sym p ∙ h)
  both_yield false x y p q h = false≢true (sym q ∙ h)

  take_next-last :
      (c : Option Entity) (more : List Entity) (m : Merger Error)
      → last (take_next is_deleted cmp c more m).0 ≡ true
      → (take_next is_deleted cmp c more m).1 ≡ m
  unfolding take_next
  take_next-last (some c) (a ∷ more) m h =
      absurd (both_yield (leb_ℤ (cmp a c) (pos 0)) _ _ refl refl h)
  take_next-last none (a ∷ more) m h = absurd (false≢true h)
  take_next-last (some c) [] m h = absurd (false≢true h)
  take_next-last none [] m h = refl

  respond-last :
      (p : Option Error) (m : Merger Error)
      → last (respond is_deleted cmp p m).0 ≡ true
      → (respond is_deleted cmp p m).1 ≡ m
  unfolding respond
  respond-last (some err) m h = refl
  respond-last none m h = take_next-last m.cur m.adds m h

  -- The state in which a call finds the merge, `started` set.
  begun : Merger Error → Merger Error
  begun m = if m.started then m else advance is_deleted cmp (record m { started = true })

  begun-started : (m : Merger Error) → (begun m).started ≡ true
  unfolding begun advance
  begun-started m = elim (Bool-cases m.started) [
    | inl s ↦ rw s
    | inr s ↦ rw s (advance_rows-started m.source.rows (record m { started = true }))
  ]

  pull_begun :
      (m : Merger Error) → m.started ≡ true → pull is_deleted cmp m ≡ answer is_deleted cmp m
  unfolding pull
  pull_begun m h = rw h

  -- After a call that returns the end or an error, the next call returns the same, and leaves the
  -- merge as it finds it.
  pub pull-sticks :
      (m m' : Merger Error) (r : Answer Error)
      → pull is_deleted cmp m ≡ (r, m')
      → last r ≡ true
      → pull is_deleted cmp m' ≡ (r, m')
  unfolding pull answer begun
  pull-sticks m m' r e l =
      let same_state =
        sym (respond-last (begun m).pending_err (begun m) (ap (λ p. last p.0) e ∙ l))
        ∙ ap (λ p. p.1) e in
      subst (λ z. pull is_deleted cmp z ≡ (r, m')) same_state
        (pull_begun (begun m) (begun-started m) ∙ e)
