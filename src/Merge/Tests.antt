-- ===== src/Merge/Tests.antt =====
-- The merge at a stream of three rows, one of them deleted and one overwritten.
use cyoda_go_spi.Base.{
  ℕ, ◌≡◌, refl, ap, ◌==◌, Bool, true, false, List, [], ◌∷◌, Option, none, some, Bytes, length,
  arith, In, ◌↔◌, if◌then◌else◌,
}
use cyoda_go_spi.Base.Int.{ℤ, pos, pos_part, neg_part, ◌-ℤ◌, int_laws, eq_of_parts}
use cyoda_go_spi.Entities.{Entity, EntityMeta}
use cyoda_go_spi.Merge.{
  answer, respond, take_next, drop_add, advance, advance_rows, skips, Source, merge_ordered, Merger,
  pull, fails,
}
use cyoda_go_spi.Merge.Drain.{follow, drain, survivors}
use cyoda_go_spi.Merge.Order.{IsOrder, Ascends, Expected, merge_ordered-Expected}
use cyoda_go_spi.Merge.Sticky.{pull-sticks}

abbrev nobody : EntityMeta
nobody = record {
  id = [];
  tenant_id = [];
  model_ref = record { entity_name = []; model_version = [] };
  state = [];
  version = pos 0;
  creation_date = pos 0;
  last_modified_date = pos 0;
  transaction_id = [];
  change_type = [];
  change_user = [];
  change_user_kind = [];
  change_executor = record { id = []; kind = [] };
  transition_for_latest_save = [];
}

abbrev entity : Bytes → ℕ → Entity
entity i d = record { meta = record nobody { id = i }; «data» = d ∷ [] }

-- Ids are ordered by their length.
by_length : Entity → Entity → ℤ
by_length a b = pos (length a.meta.id) -ℤ pos (length b.meta.id)

by_length-IsOrder : IsOrder by_length
unfolding by_length
by_length-IsOrder = record {
  trans = λ a b c h k. omega (int_laws, h, k);
  flip_lt = λ a b h. omega (int_laws, h);
  flip_gt = λ a b h. omega (int_laws, h);
  flip_eq = λ a b h. eq_of_parts _ _ (omega (int_laws, ap pos_part h, ap neg_part h));
}

-- Ids of length 1, 2 and 3, of which that of length 2 is deleted; the third is written anew.
abbrev is_deleted : Option (Bytes → Bool)
is_deleted = some (λ i. length i == 2)

abbrev committed : Source ℕ
committed = record {
  rows = entity (1 ∷ []) 10 ∷ entity (1 ∷ 1 ∷ []) 20 ∷ entity (1 ∷ 1 ∷ 1 ∷ []) 30 ∷ [];
  ending = none;
}

abbrev buffered : List Entity
buffered = entity (1 ∷ 1 ∷ 1 ∷ []) 31 ∷ entity (1 ∷ 1 ∷ 1 ∷ 1 ∷ []) 40 ∷ []

buffered-Ascends : Ascends by_length buffered
unfolding Ascends by_length ◌-ℤ◌
buffered-Ascends = ((omega arith, tt), (tt, tt))

survivors-Ascends : Ascends by_length (survivors is_deleted committed.rows)
unfolding Ascends by_length ◌-ℤ◌ skips
survivors-Ascends = ((omega arith, tt), (tt, tt))

merge_ordered-Expected_example :
    (out : List Entity) × (drain is_deleted by_length 6 (merge_ordered committed buffered)
      ≡ (out, some none))
    × Ascends by_length out
    × ((x : Entity)
        → In x out
          ↔ Expected {Error = ℕ} by_length none buffered (survivors is_deleted committed.rows) x)
merge_ordered-Expected_example =
    merge_ordered-Expected by_length-IsOrder is_deleted committed buffered buffered-Ascends
      survivors-Ascends 6 (omega arith)

yielded :
    (drain is_deleted by_length 6 (merge_ordered committed buffered)).0
    ≡ entity (1 ∷ []) 10 ∷ entity (1 ∷ 1 ∷ 1 ∷ []) 31 ∷ entity (1 ∷ 1 ∷ 1 ∷ 1 ∷ []) 40 ∷ []
unfolding drain follow pull answer respond take_next drop_add advance advance_rows merge_ordered
    by_length skips ◌-ℤ◌
yielded = refl

abbrev failing : Merger ℕ
failing = record {
  started = false;
  cur = none;
  pending_err = none;
  adds = buffered;
  source = record { rows = []; ending = some 7 };
}

abbrev failed : Merger ℕ
failed = record failing { started = true; pending_err = some 7 }

failing-pull : pull is_deleted by_length failing ≡ (fails 7, failed)
unfolding pull answer respond advance advance_rows
failing-pull = refl

pull-sticks_example : pull is_deleted by_length failed ≡ (fails 7, failed)
pull-sticks_example = pull-sticks is_deleted by_length failing failed (fails 7) failing-pull refl

-- Order by the documents and then by the length of the ids.
first : Bytes → ℕ
first [] = 0
first (x ∷ xs) = x

by_document : Entity → Entity → ℤ
by_document a b =
    if first a.«data» == first b.«data»
    then by_length a b
    else pos (first a.«data») -ℤ pos (first b.«data»)

-- A write that changes the sort key does not stand for the row of the same id.
yielded_twice :
    (drain {Error = ℕ} none by_document 3 (
      merge_ordered
        (record { rows = entity (1 ∷ []) 10 ∷ []; ending = none })
        (entity (1 ∷ []) 20 ∷ []))).0
    ≡ entity (1 ∷ []) 10 ∷ entity (1 ∷ []) 20 ∷ []
unfolding drain follow pull answer respond take_next drop_add advance advance_rows merge_ordered
    by_document first by_length skips ◌-ℤ◌
yielded_twice = refl
