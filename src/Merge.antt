-- ===== src/Merge.antt =====
-- merge_ordered.go: the merge of a committed stream with the buffered writes of a transaction.
-- `next` is the caller's function: `Source` lists the rows that it answers with and how it ends,
-- with `none` for an answer without a row and without an error. `Merger` holds the variables that
-- the returned function closes over, and `pull` is one call of it; `adds` is `adds[ai:]`. `cmp` is
-- the caller's order and `is_deleted` its set of deleted ids, `none` where it passes nil.
pub mod Overlay
pub mod Drain
pub mod Order
pub mod Sticky
mod Tests
use cyoda_go_spi.Base.{
  ℕ, zero, suc, Bool, true, false, List, [], ◌∷◌, Option, none, some, Bytes, if◌then◌else◌,
}
use cyoda_go_spi.Base.Int.{ℤ, leb_ℤ, eqb_ℤ, pos}
use cyoda_go_spi.Entities.{Entity}

pub record Source (Error : Type 0) : Type 0 where
  pub rows : List Entity
  pub ending : Option Error

pub record Merger (Error : Type 0) : Type 0 where
  pub started : Bool
  pub cur : Option Entity
  pub pending_err : Option Error
  pub adds : List Entity
  pub source : Source Error

-- What one call returns: an entity, the end, or an error.
pub data Answer (Error : Type 0) : Type 0 where
  yields : Entity → Answer Error
  done : Answer Error
  fails : Error → Answer Error

-- `isDeleted != nil && isDeleted(e.Meta.ID)`
unfoldable pub skips : Option (Bytes → Bool) → Entity → Bool
skips none e = false
skips (some is_deleted) e = is_deleted e.meta.id

module _ {Error : Type 0} (is_deleted : Option (Bytes → Bool)) (cmp : Entity → Entity → ℤ) where
  -- `advance`, on the rows that the source has left.
  pub advance_rows : List Entity → Merger Error → Merger Error
  advance_rows [] m = record {
    started = m.started;
    cur = none;
    pending_err = elim m.source.ending [ none ↦ m.pending_err | some err ↦ some err ];
    adds = m.adds;
    source = record { rows = []; ending = m.source.ending };
  }
  advance_rows (e ∷ rows) m =
      let beyond = advance_rows rows m in
      if skips is_deleted e then beyond else record {
        started = m.started;
        cur = some e;
        pending_err = m.pending_err;
        adds = m.adds;
        source = record { rows = rows; ending = m.source.ending };
      }

  pub advance : Merger Error → Merger Error
  advance m = advance_rows m.source.rows m

  -- `take := adds[ai]; ai++`
  pub drop_add : List Entity → Merger Error → Merger Error
  drop_add more m = record m { adds = more }

  -- The `switch` over what is at hand.
  pub take_next : Option Entity → List Entity → Merger Error → Answer Error × Merger Error
  take_next (some c) (a ∷ more) m =
      if leb_ℤ (cmp a c) (pos 0)
      then (
        yields a,
        if eqb_ℤ (cmp a c) (pos 0) then advance (drop_add more m) else drop_add more m,
      )
      else (yields c, advance m)
  take_next none (a ∷ more) m = (yields a, drop_add more m)
  take_next (some c) [] m = (yields c, advance m)
  take_next none [] m = (done, m)

  -- `pendingErr` goes first.
  pub respond : Option Error → Merger Error → Answer Error × Merger Error
  respond (some err) m = (fails err, m)
  respond none m = take_next m.cur m.adds m

  pub answer : Merger Error → Answer Error × Merger Error
  answer m = respond m.pending_err m

  pub pull : Merger Error → Answer Error × Merger Error
  pull m = answer (if m.started then m else advance (record m { started = true }))

pub merge_ordered : {Error : Type 0} → Source Error → List Entity → Merger Error
merge_ordered source adds = record {
  started = false;
  cur = none;
  pending_err = none;
  adds = adds;
  source = source;
}
