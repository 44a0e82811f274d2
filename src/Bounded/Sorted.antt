-- ===== src/Bounded/Sorted.antt =====
-- The merge of two sorted lists: it is sorted and holds what they hold.
use cyoda_go_spi.Base.{
  ◌≡◌, refl, inl, inr, ℕ, ◌+◌, Bool, true, false, List, [], ◌∷◌, All, length, arith, Bool-cases,
  if◌then◌else◌,
}
use cyoda_go_spi.Entities.{Entity}

-- How often a test passes.
abbrev pub count : (Entity → Bool) → List Entity → ℕ
count p [] = 0
count p (x ∷ xs) = (if p x then 1 else 0) + count p xs

length-count : (xs : List Entity) → count (λ x. true) xs ≡ length xs
length-count [] = refl
length-count (x ∷ xs) = omega (arith, length-count xs)

module _ (less : Entity → Entity → Bool) where
  -- The smaller head goes first, and of two equal ones that of the first list.
  unfoldable pub merged : List Entity → List Entity → List Entity
  merged [] adds = adds
  merged (c ∷ cs) [] = c ∷ cs
  merged (c ∷ cs) (a ∷ adds) = elim (less a c) [
    | true ↦ a ∷ merged (c ∷ cs) adds
    | false ↦ c ∷ merged cs (a ∷ adds)
  ]

  -- Nothing behind an entity is less than it.
  abbrev pub Sorted : List Entity → Type 0
  Sorted [] = Unit
  Sorted (x ∷ xs) = All (λ y. less y x ≡ false) xs × Sorted xs

  pub count-merged :
      (p : Entity → Bool) (cs adds : List Entity)
      → count p (merged cs adds) ≡ count p cs + count p adds
  unfolding merged
  count-merged p [] adds = omega arith
  count-merged p (c ∷ cs) [] = omega arith
  count-merged p (c ∷ cs) (a ∷ adds) = elim (Bool-cases (less a c)) [
    | inl e ↦
        rw (e, merged)
          (swapped (if p a then 1 else 0) (if p c then 1 else 0) (count p cs) (count p adds)
            (count p (merged (c ∷ cs) adds)) (count-merged p (c ∷ cs) adds))
    | inr e ↦
        rw (e, merged)
          (kept (if p a then 1 else 0) (if p c then 1 else 0) (count p cs) (count p adds)
            (count p (merged cs (a ∷ adds))) (count-merged p cs (a ∷ adds)))
  ]
    where
      swapped : (a c cs adds m : ℕ) → m ≡ c + cs + adds → a + m ≡ c + cs + (a + adds)
      swapped a c cs adds m h = omega (arith, h)

      kept : (a c cs adds m : ℕ) → m ≡ cs + (a + adds) → c + m ≡ c + cs + (a + adds)
      kept a c cs adds m h = omega (arith, h)

  pub length-merged : (cs adds : List Entity) → length (merged cs adds) ≡ length cs + length adds
  length-merged cs adds = omega (
    arith,
    length-count cs,
    length-count adds,
    length-count (merged cs adds),
    count-merged (λ x. true) cs adds,
  )

  All-merged :
      (P : Entity → Type 0) (cs adds : List Entity) → All P cs → All P adds → All P (merged cs adds)
  unfolding merged
  All-merged P [] adds v w = w
  All-merged P (c ∷ cs) [] v w = v
  All-merged P (c ∷ cs) (a ∷ adds) (v, vs) (w, ws) = elim (Bool-cases (less a c)) [
    | inl e ↦ rw (e, merged) (w, All-merged P (c ∷ cs) adds (v, vs) ws)
    | inr e ↦ rw (e, merged) (v, All-merged P cs (a ∷ adds) vs (w, ws))
  ]

  All-map :
      (P Q : Entity → Type 0) (xs : List Entity) → ((x : Entity) → P x → Q x) → All P xs → All Q xs
  All-map P Q [] f v = tt
  All-map P Q (x ∷ xs) f (v, vs) = (f x v, All-map P Q xs f vs)

  module _ (asymmetric : (x y : Entity) → less x y ≡ true → less y x ≡ false)
      (transitive : (x y z : Entity) → less x y ≡ false → less y z ≡ false → less x z ≡ false) where
    pub merged-Sorted : (cs adds : List Entity) → Sorted cs → Sorted adds → Sorted (merged cs adds)
    unfolding merged
    merged-Sorted [] adds v w = w
    merged-Sorted (c ∷ cs) [] v w = v
    merged-Sorted (c ∷ cs) (a ∷ adds) (v, vs) (w, ws) = elim (Bool-cases (less a c)) [
      | inl e ↦
          rw (e, merged)
            (
              All-merged (λ y. less y a ≡ false) (c ∷ cs) adds
                  (
                    asymmetric a c e,
                    All-map (λ y. less y c ≡ false) (λ y. less y a ≡ false) cs
                        (λ y h. transitive y c a h (asymmetric a c e)) v,
                  )
                  w,
              merged-Sorted (c ∷ cs) adds (v, vs) ws,
            )
      | inr e ↦
          rw (e, merged)
            (
              All-merged (λ y. less y c ≡ false) cs (a ∷ adds) v
                  (
                    e,
                    All-map (λ y. less y a ≡ false) (λ y. less y c ≡ false) adds
                        (λ y h. transitive y a c h e) w,
                  ),
              merged-Sorted cs (a ∷ adds) vs (w, ws),
            )
    ]
