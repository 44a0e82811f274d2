-- ===== src/Merge/Overlay.antt =====
-- What a merge with an overlay is to yield, more a relation.
use cyoda_go_spi.Base.{◌≡◌, List, [], ◌∷◌, Option, none, some}
use cyoda_go_spi.Base.Int.{ℤ, pos, ◌<ℤ◌}
use cyoda_go_spi.Entities.{Entity}

-- `Overlay cmp ending adds rows out`: `adds` over the surviving `rows`, which end with `ending`.
pub data Overlay {Error : Type 0} (cmp : Entity → Entity → ℤ) (ending : Option Error)
    : List Entity → List Entity → List Entity → Type 0 where
  broken : {err : Error} {more : List Entity} → ending ≡ some err → Overlay cmp ending more [] []
  ended : ending ≡ none → Overlay cmp ending [] [] []
  add_left :
      {a : Entity} {more out : List Entity}
      → ending ≡ none
      → Overlay cmp ending more [] out
      → Overlay cmp ending (a ∷ more) [] (a ∷ out)
  row_left :
      {c : Entity} {cs out : List Entity}
      → Overlay cmp ending [] cs out
      → Overlay cmp ending [] (c ∷ cs) (c ∷ out)
  before :
      {a c : Entity} {more cs out : List Entity}
      → cmp a c <ℤ pos 0
      → Overlay cmp ending more (c ∷ cs) out
      → Overlay cmp ending (a ∷ more) (c ∷ cs) (a ∷ out)
  shadows :
      {a c : Entity} {more cs out : List Entity}
      → cmp a c ≡ pos 0
      → Overlay cmp ending more cs out
      → Overlay cmp ending (a ∷ more) (c ∷ cs) (a ∷ out)
  after :
      {a c : Entity} {more cs out : List Entity}
      → pos 0 <ℤ cmp a c
      → Overlay cmp ending (a ∷ more) cs out
      → Overlay cmp ending (a ∷ more) (c ∷ cs) (c ∷ out)
