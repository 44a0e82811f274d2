-- ===== src/Merge/Drain.antt =====
-- Calling the merge until it ends: enough calls realise `Overlay`.
use cyoda_go_spi.Base.{
  ℕ, zero, suc, ◌+◌, ◌<◌, ◌≡◌, refl, ap, ◌∙◌, Bool, true, false, not, List, [], ◌∷◌, Option, none,
  some, Bytes, ◌⊎◌, inl, inr, length, keep, arith, Bool-cases,
}
use cyoda_go_spi.Base.Int.{ℤ, pos, ◌<ℤ◌, leb_ℤ, eqb_ℤ, negsuc}
use cyoda_go_spi.Entities.{Entity}
use cyoda_go_spi.Merge.{
  Source, Merger, Answer, yields, done, fails, skips, respond, advance_rows, advance, drop_add,
  take_next, answer, pull, merge_ordered,
}
use cyoda_go_spi.Merge.Overlay.{Overlay, broken, ended, add_left, row_left, before, shadows, after}

-- How a run of calls came out: the entities, and the last answer, `none` if the calls were too few.
abbrev pub Run : Type 0 → Type 0
Run Error = List Entity × Option (Option Error)

-- The committed rows that are not deleted.
abbrev pub survivors : Option (Bytes → Bool) → List Entity → List Entity
survivors is_deleted rows = keep (λ e. not (skips is_deleted e)) rows

survivors-skipped :
    (is_deleted : Option (Bytes → Bool)) (e : Entity) (rows : List Entity)
    → skips is_deleted e ≡ true
    → survivors is_deleted (e ∷ rows) ≡ survivors is_deleted rows
survivors-skipped is_deleted e rows h = rw (h, survivors, keep)

survivors-kept :
    (is_deleted : Option (Bytes → Bool)) (e : Entity) (rows : List Entity)
    → skips is_deleted e ≡ false
    → survivors is_deleted (e ∷ rows) ≡ e ∷ survivors is_deleted rows
survivors-kept is_deleted e rows h = rw (h, survivors, keep)

-- Where an order's answer lies, with the two tests of the code.
abbrev Sign : ℤ → Type 0
Sign z =
    (z <ℤ pos 0 × (leb_ℤ z (pos 0) ≡ true) × (eqb_ℤ z (pos 0) ≡ false))
    ⊎ (z ≡ pos 0)
    ⊎ (pos 0 <ℤ z × (leb_ℤ z (pos 0) ≡ false))

sign : (z : ℤ) → Sign z
sign (pos zero) = inr (inl refl)
sign (pos (suc n)) = inr (inr (omega arith, ground arith))
sign (negsuc n) = inl (omega arith, ground arith, ground arith)

module _ {Error : Type 0} (is_deleted : Option (Bytes → Bool)) (cmp : Entity → Entity → ℤ) where
  unfoldable pub follow : (Merger Error → Run Error) → Answer Error × Merger Error → Run Error
  follow next (yields e, m) = let rest = next m in (e ∷ rest.0, rest.1)
  follow next (done, m) = ([], some none)
  follow next (fails err, m) = ([], some (some err))

  -- `n` calls at most.
  unfoldable pub drain : ℕ → Merger Error → Run Error
  drain zero m = ([], none)
  drain (suc n) m = follow (drain n) (pull is_deleted cmp m)

  -- The two states between calls: no row is buffered, or one is.
  abbrev idle : List Entity → Option Error → Merger Error
  idle more ending = record {
    started = true;
    cur = none;
    pending_err = ending;
    adds = more;
    source = record { rows = []; ending = ending };
  }

  abbrev holding : Option Entity → List Entity → List Entity → Option Error → Merger Error
  holding c more rows ending = record {
    started = true;
    cur = c;
    pending_err = none;
    adds = more;
    source = record { rows = rows; ending = ending };
  }

  abbrev Advanced : List Entity → List Entity → Option Error → Merger Error → Type 0
  Advanced more rows ending m =
      ((survivors is_deleted rows ≡ []) × (m ≡ idle more ending))
      ⊎ ((c : Entity) × (rows' : List Entity) × ((survivors is_deleted rows
              ≡ c ∷ survivors is_deleted rows')
            × (m ≡ holding (some c) more rows' ending)
            × (length rows' < length rows)))

  advance_rows-Advanced :
      (rows : List Entity) (c : Option Entity) (more rows' : List Entity) (ending : Option Error)
      → Advanced more rows ending (advance_rows is_deleted cmp rows (holding c more rows' ending))
  unfolding advance_rows
  advance_rows-Advanced [] c more rows' none = inl (refl, refl)
  advance_rows-Advanced [] c more rows' (some err) = inl (refl, refl)
  advance_rows-Advanced (e ∷ rows) c more rows' ending = elim (Bool-cases (skips is_deleted e)) [
    | inl s ↦ rw s (elim (advance_rows-Advanced rows c more rows' ending) [
      | inl (n, h) ↦ inl (survivors-skipped is_deleted e rows s ∙ n, h)
      | inr (d, ds, (n, h, l)) ↦
          inr (d, ds, (survivors-skipped is_deleted e rows s ∙ n, h, omega (arith, l)))
    ])
    | inr s ↦ rw s (inr (e, rows, (survivors-kept is_deleted e rows s, refl, omega arith)))
  ]

  abbrev Drains : ℕ → Merger Error → List Entity → List Entity → Option Error → Type 0
  Drains n m more rows ending =
      (out : List Entity) × (drain n m ≡ (out, some ending)) × Overlay cmp ending more rows out

  drain-yields :
      (n : ℕ) (m m' : Merger Error) (e : Entity) (out : List Entity) (r : Option (Option Error))
      → pull is_deleted cmp m ≡ (yields e, m')
      → drain n m' ≡ (out, r)
      → drain (suc n) m ≡ (e ∷ out, r)
  unfolding drain follow
  drain-yields n m m' e out r h k = rw (h, k)

  idle-Drains :
      (n : ℕ) (more : List Entity) (ending : Option Error)
      → length more < n
      → Drains n (idle more ending) more [] ending
  unfolding drain follow pull answer respond take_next drop_add
  idle-Drains (suc n) more (some err) h = ([], refl, broken refl)
  idle-Drains (suc n) [] none h = ([], refl, ended refl)
  idle-Drains (suc n) (a ∷ more) none h =
      let (out, e, o) = idle-Drains n more none (omega (arith, h)) in
      (
        a ∷ out,
        drain-yields n (idle (a ∷ more) none) (idle more none) a out (some none) refl e,
        add_left refl o,
      )
  idle-Drains zero more ending h = absurd (omega (arith, h))

  -- `n` calls are enough from every state that holds a row and has fewer elements to come.
  abbrev Suffices : ℕ → Option Error → Type 0
  Suffices n ending =
      (c : Entity) (more rows : List Entity)
      → length more + length rows + 1 < n
      → Drains n (holding (some c) more rows ending) more (c ∷ survivors is_deleted rows) ending

  advanced-Drains :
      (n : ℕ) (more rows : List Entity) (ending : Option Error)
      → Suffices n ending
      → length more + length rows < n
      → (m : Merger Error) → Advanced more rows ending m
      → Drains n m more (survivors is_deleted rows) ending
  advanced-Drains n more rows ending enough l m (inl (s, h)) =
      rw (s, h) (idle-Drains n more ending (omega (arith, l)))
  advanced-Drains n more rows ending enough l m (inr (c, rows', (s, h, k))) =
      rw (s, h) (enough c more rows' (omega (arith, l, k)))

  holding-Drains : (n : ℕ) (ending : Option Error) → Suffices n ending
  unfolding pull answer respond take_next drop_add advance
  holding-Drains zero ending c more rows l = absurd (omega (arith, l))
  holding-Drains (suc n) ending c [] rows l =
      let (out, e, o) =
        advanced-Drains n [] rows ending (holding-Drains n ending) (omega (arith, l)) _
          (advance_rows-Advanced rows (some c) [] rows ending) in
      (
        c ∷ out,
        drain-yields n (holding (some c) [] rows ending) _ c out (some ending) refl e,
        row_left o,
      )
  holding-Drains (suc n) ending c (a ∷ more) rows l = elim (sign (cmp a c)) [
    | inl (s, p, q) ↦
        let (out, e, o) = holding-Drains n ending c more rows (omega (arith, l)) in
        (
          a ∷ out,
          drain-yields n (holding (some c) (a ∷ more) rows ending)
              (holding (some c) more rows ending) a out (some ending) (rw (p, q)) e,
          before s o,
        )
    | inr (inl z) ↦
        let (out, e, o) =
          advanced-Drains n more rows ending (holding-Drains n ending) (omega (arith, l)) _
            (advance_rows-Advanced rows (some c) more rows ending) in
        (
          a ∷ out,
          drain-yields n (holding (some c) (a ∷ more) rows ending) _ a out (some ending) (rw z) e,
          shadows z o,
        )
    | inr (inr (s, p)) ↦
        let (out, e, o) =
          advanced-Drains n (a ∷ more) rows ending (holding-Drains n ending) (omega (arith, l)) _
            (advance_rows-Advanced rows (some c) (a ∷ more) rows ending) in
        (
          c ∷ out,
          drain-yields n (holding (some c) (a ∷ more) rows ending) _ c out (some ending) (rw p) e,
          after s o,
        )
  ]

  first-pull :
      (m : Merger Error) (more rows : List Entity) (ending : Option Error)
      → Advanced more rows ending m
      → answer is_deleted cmp m ≡ pull is_deleted cmp m
  unfolding pull
  first-pull m more rows ending (inl (s, h)) = rw h
  first-pull m more rows ending (inr (c, rows', (s, h, k))) = rw h

  -- Enough calls of the merge yield the overlay of `adds` over the surviving rows, and the last
  -- answer is the end or the error of the committed stream.
  pub merge_ordered-Overlay :
      (source : Source Error) (adds : List Entity) (n : ℕ)
      → length adds + length source.rows < n
      → (out : List Entity) × (drain n (merge_ordered source adds) ≡ (out, some source.ending))
        × Overlay cmp source.ending adds (survivors is_deleted source.rows) out
  unfolding drain follow pull merge_ordered advance
  merge_ordered-Overlay source adds zero l = absurd (omega (arith, l))
  merge_ordered-Overlay source adds (suc n) l =
      let found = advance_rows-Advanced source.rows none adds source.rows source.ending in
      let (out, e, o) =
        advanced-Drains (suc n) adds source.rows source.ending
          (holding-Drains (suc n) source.ending) l _ found in
      (out, ap (follow (drain n)) (first-pull _ adds source.rows source.ending found) ∙ e, o)
