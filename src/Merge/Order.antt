-- ===== src/Merge/Order.antt =====
-- The overlay over an order: what is yielded, in which order, and which rows a buffered write
-- stands for.
use cyoda_go_spi.Base.{
  ℕ, ◌+◌, ◌<◌, ◌≡◌, ◌≢◌, ◌↔◌, refl, sym, subst, List, [], ◌∷◌, Option, none, some, Bytes, ◌⊎◌, inl,
  inr, Bool, length, All, In, arith,
}
use cyoda_go_spi.Base.Int.{ℤ, pos, ◌<ℤ◌, ◌≤ℤ◌}
use cyoda_go_spi.Entities.{Entity}
use cyoda_go_spi.Merge.{Source, merge_ordered}
use cyoda_go_spi.Merge.Overlay.{Overlay, broken, ended, add_left, row_left, before, shadows, after}
use cyoda_go_spi.Merge.Drain.{drain, survivors, merge_ordered-Overlay}

-- `cmp` is a total preorder, read off the sign of its answer.
pub record IsOrder (cmp : Entity → Entity → ℤ) : Type 0 where
  pub trans : (a b c : Entity) → cmp a b ≤ℤ pos 0 → cmp b c <ℤ pos 0 → cmp a c <ℤ pos 0
  pub flip_lt : (a b : Entity) → cmp a b <ℤ pos 0 → pos 0 <ℤ cmp b a
  pub flip_gt : (a b : Entity) → pos 0 <ℤ cmp a b → cmp b a <ℤ pos 0
  pub flip_eq : (a b : Entity) → cmp a b ≡ pos 0 → cmp b a ≡ pos 0

module _ (cmp : Entity → Entity → ℤ) where
  unfoldable pub Ascends : List Entity → Type 0
  Ascends [] = Unit
  Ascends (x ∷ xs) = All (λ y. cmp x y <ℤ pos 0) xs × Ascends xs

  -- No buffered write compares equal to `x`. By the contract of `cmp`, which no proof here
  -- uses, equal entities have one id; two versions of one entity may still compare as different.
  abbrev pub Clear : List Entity → Entity → Type 0
  Clear adds x = All (λ a. cmp a x ≢ pos 0) adds

module _ {Error : Type 0} (cmp : Entity → Entity → ℤ) where
  -- A stream that fails is read up to its last row, so that only what sorts no later is known.
  abbrev pub Reached : Option Error → List Entity → Entity → Type 0
  Reached none rows x = Unit
  Reached (some err) rows x = (c : Entity) × In c rows × (cmp x c ≤ℤ pos 0)

  abbrev pub Expected : Option Error → List Entity → List Entity → Entity → Type 0
  Expected ending adds rows x = (In x adds × Reached ending rows x) ⊎ (In x rows × Clear cmp adds x)

All-In {ℓ κ} : {A : Type ℓ} (P : A → Type κ) (xs : List A) → ((y : A) → In y xs → P y) → All P xs
All-In P [] h = tt
All-In P (x ∷ xs) h = (h x (inl refl), All-In P xs (λ y i. h y (inr i)))

In-All {ℓ κ} : {A : Type ℓ} (P : A → Type κ) (xs : List A) {y : A} → All P xs → In y xs → P y
In-All P [] ps i = elim i [ ]
In-All P (x ∷ xs) (p, ps) (inl e) = subst P e p
In-All P (x ∷ xs) (p, ps) (inr i) = In-All P xs ps i

module _ {cmp : Entity → Entity → ℤ} (order : IsOrder cmp) where
  -- Before all of `rows`, a write stands for none of them.
  not_equal_below : (a x : Entity) → cmp a x <ℤ pos 0 → cmp a x ≢ pos 0
  not_equal_below a x l e = absurd (omega (arith, subst (λ z. z <ℤ pos 0) e l))

  not_equal_above : (a x : Entity) → cmp x a <ℤ pos 0 → cmp a x ≢ pos 0
  not_equal_above a x l e = absurd (omega (arith, subst (λ z. pos 0 <ℤ z) e (order.flip_lt x a l)))

  -- A row in front of the first write is in front of all.
  Clear-above :
      (c a : Entity) (more : List Entity)
      → cmp c a <ℤ pos 0
      → All (λ y. cmp a y <ℤ pos 0) more
      → Clear cmp (a ∷ more) c
  Clear-above c a more l la = (
    not_equal_above a c l,
    All-In (λ y. cmp y c ≢ pos 0) more
        (λ y i.
          not_equal_above y c
            (order.trans c a y (omega (arith, l)) (In-All (λ y. cmp a y <ℤ pos 0) more la i))),
  )

  behind_first :
      (c a : Entity) (more : List Entity) (x : Entity)
      → cmp c a <ℤ pos 0
      → All (λ y. cmp a y <ℤ pos 0) more
      → In x (a ∷ more)
      → cmp c x <ℤ pos 0
  behind_first c a more x l la (inl h) = subst (λ y. cmp c y <ℤ pos 0) h l
  behind_first c a more x l la (inr i) =
      order.trans c a x (omega (arith, l)) (In-All (λ y. cmp a y <ℤ pos 0) more la i)

  All-beyond :
      (x c : Entity) (cs : List Entity)
      → cmp x c ≤ℤ pos 0
      → All (λ y. cmp c y <ℤ pos 0) cs
      → All (λ y. cmp x y <ℤ pos 0) cs
  All-beyond x c cs l lr =
      All-In (λ y. cmp x y <ℤ pos 0) cs
        (λ y i. order.trans x c y l (In-All (λ y. cmp c y <ℤ pos 0) cs lr i))

at_most_zero : {z : ℤ} → z ≡ pos 0 → z ≤ℤ pos 0
at_most_zero e = subst (λ z. z ≤ℤ pos 0) (sym e) (omega arith)

module _ {Error : Type 0} {cmp : Entity → Entity → ℤ} (order : IsOrder cmp) where
  Reached-later :
      (ending : Option Error) (c : Entity) (rows : List Entity) (x : Entity)
      → Reached cmp ending rows x
      → Reached cmp ending (c ∷ rows) x
  Reached-later none c rows x r = tt
  Reached-later (some err) c rows x (d, i, l) = (d, inr i, l)

  Reached-first :
      (ending : Option Error) (c : Entity) (rows : List Entity) (x : Entity)
      → cmp x c ≤ℤ pos 0
      → Reached cmp ending (c ∷ rows) x
  Reached-first none c rows x l = tt
  Reached-first (some err) c rows x l = (c, inl refl, l)

  -- Behind `c`, a later row is the one that reaches `x`.
  Reached-behind :
      (ending : Option Error) (c : Entity) (rows : List Entity) (x : Entity)
      → cmp c x <ℤ pos 0
      → Reached cmp ending (c ∷ rows) x
      → Reached cmp ending rows x
  Reached-behind none c rows x l r = tt
  Reached-behind (some err) c rows x l (d, inl e, k) =
      absurd (omega (arith, order.flip_lt c x l, subst (λ d. cmp x d ≤ℤ pos 0) (sym e) k))
  Reached-behind (some err) c rows x l (d, inr i, k) = (d, i, k)

  -- What is yielded was to be yielded.
  sound :
      {ending : Option Error} {adds rows out : List Entity}
      → Overlay cmp ending adds rows out
      → Ascends cmp adds
      → Ascends cmp rows
      → (x : Entity) → In x out
      → Expected cmp ending adds rows x
  unfolding Ascends
  sound (broken e) sa sr x i = elim i [ ]
  sound (ended e) sa sr x i = elim i [ ]
  sound (add_left {a} {more} e o) sa sr x (inl h) =
      inl (inl h, subst (λ w. Reached cmp w [] x) (sym e) tt)
  sound (add_left {a} {more} e o) (la, sa) sr x (inr i) = elim (sound o sa sr x i) [
    | inl (k, r) ↦ inl (inr k, r)
    | inr (k, r) ↦ elim k [ ]
  ]
  sound (row_left o) sa sr x (inl h) = inr (inl h, tt)
  sound (row_left o) sa (lr, sr) x (inr i) = elim (sound o sa sr x i) [
    | inl (k, r) ↦ elim k [ ]
    | inr (k, r) ↦ inr (inr k, tt)
  ]
  sound (before {a} {c} {more} {cs} l o) (la, sa) sr x (inl h) =
      inl (inl h, Reached-first _ c cs x (subst (λ y. cmp y c ≤ℤ pos 0) h (omega (arith, l))))
  sound (before {a} {c} {more} {cs} l o) (la, sa) (lr, sr) x (inr i) =
      elim (sound o sa (lr, sr) x i) [
        | inl (k, r) ↦ inl (inr k, r)
        | inr (inl k, r) ↦
            inr (inl k, (not_equal_below order a x (subst (λ y. cmp a y <ℤ pos 0) k l), r))
        | inr (inr k, r) ↦ inr (
          inr k,
          (
            not_equal_below order a x
                (order.trans a c x (omega (arith, l)) (In-All (λ y. cmp c y <ℤ pos 0) cs lr k)),
            r,
          ),
        )
      ]
  sound (shadows {a} {c} {more} {cs} z o) (la, sa) sr x (inl h) =
      inl (inl h, Reached-first _ c cs x (subst (λ y. cmp y c ≤ℤ pos 0) h (at_most_zero z)))
  sound (shadows {a} {c} {more} {cs} z o) (la, sa) (lr, sr) x (inr i) = elim (sound o sa sr x i) [
    | inl (k, r) ↦ inl (inr k, Reached-later _ c cs x r)
    | inr (k, r) ↦ inr (
      inr k,
      (
        not_equal_below order a x
            (order.trans a c x (at_most_zero z) (In-All (λ y. cmp c y <ℤ pos 0) cs lr k)),
        r,
      ),
    )
  ]
  sound (after {a} {c} {more} {cs} l o) (la, sa) (lr, sr) x (inl h) =
      inr (
        inl h,
        subst (Clear cmp (a ∷ more)) h (Clear-above order c a more (order.flip_gt a c l) la),
      )
  sound (after {a} {c} {more} {cs} l o) sa (lr, sr) x (inr i) = elim (sound o sa sr x i) [
    | inl (k, r) ↦ inl (k, Reached-later _ c cs x r)
    | inr (k, r) ↦ inr (inr k, r)
  ]

  -- What is to be yielded is yielded.
  complete :
      {ending : Option Error} {adds rows out : List Entity}
      → Overlay cmp ending adds rows out
      → Ascends cmp adds
      → Ascends cmp rows
      → (x : Entity) → Expected cmp ending adds rows x
      → In x out
  unfolding Ascends
  complete (broken e) sa sr x (inl (k, r)) =
      let (d, i, l) = subst (λ w. Reached cmp w [] x) e r in elim i [ ]
  complete (broken e) sa sr x (inr (k, r)) = elim k [ ]
  complete (ended e) sa sr x (inl (k, r)) = k
  complete (ended e) sa sr x (inr (k, r)) = k
  complete (add_left e o) sa sr x (inl (inl h, r)) = inl h
  complete (add_left e o) (la, sa) sr x (inl (inr k, r)) = inr (complete o sa sr x (inl (k, r)))
  complete (add_left e o) sa sr x (inr (k, r)) = elim k [ ]
  complete (row_left o) sa sr x (inl (k, r)) = elim k [ ]
  complete (row_left o) sa sr x (inr (inl h, r)) = inl h
  complete (row_left o) sa (lr, sr) x (inr (inr k, r)) = inr (complete o sa sr x (inr (k, r)))
  complete (before l o) sa sr x (inl (inl h, r)) = inl h
  complete (before l o) (la, sa) sr x (inl (inr k, r)) = inr (complete o sa sr x (inl (k, r)))
  complete (before l o) (la, sa) sr x (inr (k, (n, r))) = inr (complete o sa sr x (inr (k, r)))
  complete (shadows z o) sa sr x (inl (inl h, r)) = inl h
  complete (shadows {a} {c} {more} {cs} z o) (la, sa) (lr, sr) x (inl (inr k, r)) =
      let beyond =
        order.trans c a x (at_most_zero (order.flip_eq a c z))
          (In-All (λ y. cmp a y <ℤ pos 0) more la k) in
      inr (complete o sa sr x (inl (k, Reached-behind _ c cs x beyond r)))
  complete (shadows {a} z o) sa sr x (inr (inl h, (n, r))) =
      absurd (n (subst (λ y. cmp a y ≡ pos 0) h z))
  complete (shadows z o) (la, sa) (lr, sr) x (inr (inr k, (n, r))) =
      inr (complete o sa sr x (inr (k, r)))
  complete (after {a} {c} {more} {cs} l o) (la, sa) (lr, sr) x (inl (k, r)) =
      let beyond = behind_first order c a more x (order.flip_gt a c l) la k in
      inr (complete o (la, sa) sr x (inl (k, Reached-behind _ c cs x beyond r)))
  complete (after l o) sa sr x (inr (inl h, r)) = inl h
  complete (after l o) sa (lr, sr) x (inr (inr k, r)) = inr (complete o sa sr x (inr (k, r)))

  behind :
      {ending : Option Error} {adds rows out : List Entity} (x : Entity)
      → Overlay cmp ending adds rows out
      → Ascends cmp adds
      → Ascends cmp rows
      → All (λ y. cmp x y <ℤ pos 0) adds
      → All (λ y. cmp x y <ℤ pos 0) rows
      → All (λ y. cmp x y <ℤ pos 0) out
  behind {adds = adds} {rows} {out} x o sa sr la lr =
      All-In (λ y. cmp x y <ℤ pos 0) out
        (λ y i. elim (sound o sa sr y i) [
          | inl (k, r) ↦ In-All (λ y. cmp x y <ℤ pos 0) adds la k
          | inr (k, r) ↦ In-All (λ y. cmp x y <ℤ pos 0) rows lr k
        ])

  ascends :
      {ending : Option Error} {adds rows out : List Entity}
      → Overlay cmp ending adds rows out
      → Ascends cmp adds
      → Ascends cmp rows
      → Ascends cmp out
  unfolding Ascends
  ascends (broken e) sa sr = tt
  ascends (ended e) sa sr = tt
  ascends (add_left {a} e o) (la, sa) sr = (behind a o sa sr la tt, ascends o sa sr)
  ascends (row_left {c} o) sa (lr, sr) = (behind c o sa sr tt lr, ascends o sa sr)
  ascends (before {a} {c} {more} {cs} l o) (la, sa) (lr, sr) = (
    behind a o sa (lr, sr) la (l, All-beyond order a c cs (omega (arith, l)) lr),
    ascends o sa (lr, sr),
  )
  ascends (shadows {a} {c} {more} {cs} z o) (la, sa) (lr, sr) =
      (behind a o sa sr la (All-beyond order a c cs (at_most_zero z) lr), ascends o sa sr)
  ascends (after {a} {c} {more} {cs} l o) (la, sa) (lr, sr) =
      let k = order.flip_gt a c l in
      (
        behind c o (la, sa) sr (k, All-beyond order c a more (omega (arith, k)) la) lr,
        ascends o (la, sa) sr,
      )

  -- Let `cmp` be an order, and let the buffered writes and the rows that are not deleted ascend
  -- strictly by it. More calls of the merge than there are writes and rows then end with the end or
  -- the error of the committed stream, and what they yield ascends strictly and holds exactly: each
  -- buffered write, if the stream does not fail or has a row that is not deleted and sorts no
  -- earlier; and each row that is not deleted and with which no buffered write compares equal,
  -- whether or not one has its id.
  pub merge_ordered-Expected :
      (is_deleted : Option (Bytes → Bool)) (source : Source Error) (adds : List Entity)
      → Ascends cmp adds
      → Ascends cmp (survivors is_deleted source.rows)
      → (n : ℕ) → length adds + length source.rows < n
      → (out : List Entity) × (drain is_deleted cmp n (merge_ordered source adds)
          ≡ (out, some source.ending))
        × Ascends cmp out
        × ((x : Entity)
            → In x out ↔ Expected cmp source.ending adds (survivors is_deleted source.rows) x)
  merge_ordered-Expected is_deleted source adds sa sr n l =
      let (out, e, o) = merge_ordered-Overlay is_deleted cmp source adds n l in
      (out, e, ascends o sa sr, λ x. (sound o sa sr x, complete o sa sr x))
