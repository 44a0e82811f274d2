-- ===== src/Bounded/Tests.antt =====
-- A bounded merge by the length of the documents.
use cyoda_go_spi.Base.{
  ◌≡◌, refl, ℕ, Bool, true, false, List, [], ◌∷◌, Option, none, some, Bytes, codes, ltb, length,
  arith, ok, err,
}
use cyoda_go_spi.Base.Int.{pos}
use cyoda_go_spi.Operators.{same_bytes}
use cyoda_go_spi.Entities.{Entity}
use cyoda_go_spi.Merge.{Source, skips}
use cyoda_go_spi.Bounded.{
  merge_bounded, merge_up_to, merge_loop, advance_to, within_limit, limit_exceeded, max_int,
  need_of, appends,
}
use cyoda_go_spi.Bounded.Union.{Outcome, merge_bounded-Outcome}

abbrev entity : Bytes → Bytes → Entity
entity id doc = record {
  meta = record {
    id = id;
    tenant_id = codes "t";
    model_ref = record { entity_name = codes "car"; model_version = codes "1" };
    state = [];
    version = pos 1;
    creation_date = pos 0;
    last_modified_date = pos 0;
    transaction_id = [];
    change_type = [];
    change_user = [];
    change_user_kind = [];
    change_executor = record { id = []; kind = [] };
    transition_for_latest_save = [];
  };
  «data» = doc;
}

abbrev shorter : Entity → Entity → Bool
shorter x y = ltb (length x.«data») (length y.«data»)

abbrev is_b : Option (Bytes → Bool)
is_b = some λ id. same_bytes id (codes "b")

-- The second of three rows is deleted.
abbrev rows : Source Bytes
rows = record {
  rows =
      entity (codes "a") (codes "1")
      ∷ entity (codes "b") (codes "12")
      ∷ entity (codes "c") (codes "1234")
      ∷ [];
  ending = none;
}

abbrev written : List Entity
written = entity (codes "d") (codes "12") ∷ []

shorter_asymmetric : (x y : Entity) → shorter x y ≡ true → shorter y x ≡ false
shorter_asymmetric x y h = sizes (length x.«data») (length y.«data») h
  where
    sizes : (a b : ℕ) → ltb a b ≡ true → ltb b a ≡ false
    sizes a b h = ground arith

shorter_transitive :
    (x y z : Entity) → shorter x y ≡ false → shorter y z ≡ false → shorter x z ≡ false
shorter_transitive x y z h k = sizes (length x.«data») (length y.«data») (length z.«data») h k
  where
    sizes : (a b c : ℕ) → ltb a b ≡ false → ltb b c ≡ false → ltb a c ≡ false
    sizes a b c h k = ground arith

merge_bounded-Outcome_example :
    Outcome is_b shorter rows written (pos 3) (merge_bounded is_b shorter rows written (pos 3))
unfolding skips
merge_bounded-Outcome_example =
    merge_bounded-Outcome is_b shorter rows written shorter_asymmetric shorter_transitive
      ((refl, tt), (tt, tt)) (tt, tt) (pos 3) (omega arith)

three :
    merge_bounded is_b shorter rows written (pos 3)
    ≡ ok (
        entity (codes "a") (codes "1")
        ∷ entity (codes "d") (codes "12")
        ∷ entity (codes "c") (codes "1234")
        ∷ [])
unfolding merge_bounded merge_up_to merge_loop advance_to within_limit skips need_of appends
three = refl

limit_two : merge_bounded is_b shorter rows written (pos 2) ≡ err limit_exceeded
unfolding merge_bounded merge_up_to merge_loop advance_to within_limit skips need_of appends
limit_two = refl

-- Under the largest `int`, the second and the third entity are lost without an error.
largest_limit :
    merge_bounded is_b shorter rows written (pos max_int) ≡ ok (entity (codes "a") (codes "1") ∷ [])
unfolding merge_bounded merge_up_to merge_loop advance_to within_limit skips need_of appends
largest_limit = refl
