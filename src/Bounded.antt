-- ===== src/Bounded.antt =====
-- merge_bounded.go: `MergeBounded`, the merge of a committed stream with a transaction's sorted
-- writes up to a bound. `Source` lists the rows that the caller's `next` answers with and how it
-- ends; `less` stands for `LessByOrder` under the caller's order, `is_deleted` is `none` for nil.
pub mod Sorted
pub mod Outcome
pub mod Union
mod Tests
use cyoda_go_spi.Base.{
  ℕ, zero, suc, ◌+◌, ◌-◌, ◌%◌, ◌^◌, Bool, true, false, List, [], ◌∷◌, Option, none, some, Bytes,
  ltb, length, if◌then◌else◌, Result, ok, err, ◌>>=◌,
}
use cyoda_go_spi.Base.Int.{ℤ, pos, negsuc}
use cyoda_go_spi.Entities.{Entity}
use cyoda_go_spi.Merge.{Source, skips}

-- The error of the stream, `ErrSearchResultLimitExceeded`, or that of a limit below 1.
pub data BoundedError (Error : Type 0) : Type 0 where
  failed : Error → BoundedError Error
  limit_exceeded bad_limit : BoundedError Error

-- The largest `int`, of 64 bits.
abbrev pub max_int : ℕ
max_int = 2 ^ 63 - 1

-- `need := limit + 1`, an `int`: at the largest limit it wraps round to the least `int`.
unfoldable pub need_of : ℕ → ℤ
need_of limit =
    let bits = (limit + 1) % 2 ^ 64 in
    if ltb bits (2 ^ 63) then pos bits else negsuc (2 ^ 64 - bits - 1)

-- How many entities the loop appends at most. It tests `len(out) >= need` after each of them, so a
-- `need` below 1 ends it after the first.
unfoldable pub appends : ℤ → ℕ
appends (pos zero) = 1
appends (pos (suc n)) = suc n
appends (negsuc n) = 1

module _ {Error : Type 0} (is_deleted : Option (Bytes → Bool)) (less : Entity → Entity → Bool) where
  -- `advance`: the next row that is not deleted, if any, and the rows behind it.
  unfoldable pub advance_to :
      Option Error → List Entity → Result (BoundedError Error) (Option Entity × List Entity)
  advance_to none [] = ok (none, [])
  advance_to (some e) [] = err (failed e)
  advance_to ending (e ∷ rows) = elim (skips is_deleted e) [
    | true ↦ advance_to ending rows
    | false ↦ ok (some e, rows)
  ]

  -- The loop: what it appends. The first argument is how many entities it may still append before
  -- `len(out) >= need` ends it, `appends need` at first.
  unfoldable pub merge_loop :
      ℕ
      → Option Error
      → Option Entity
      → List Entity
      → List Entity
      → Result (BoundedError Error) (List Entity)
  unfolding advance_to
  merge_loop zero ending cur rows adds = ok []
  merge_loop (suc n) ending none rows [] = ok []
  merge_loop (suc n) ending none rows (a ∷ adds) =
      merge_loop n ending none rows adds >>= λ out. ok (a ∷ out)
  merge_loop (suc n) ending (some c) rows [] = advance_to ending rows >>= λ (cur, rows').
      merge_loop n ending cur rows' [] >>= λ out. ok (c ∷ out)
  merge_loop (suc n) ending (some c) rows (a ∷ adds) = elim (less a c) [
    | true ↦ merge_loop n ending (some c) rows adds >>= λ out. ok (a ∷ out)
    | false ↦ advance_to ending rows >>= λ (cur, rows').
        merge_loop n ending cur rows' (a ∷ adds) >>= λ out. ok (c ∷ out)
  ]

  unfoldable pub within_limit : ℕ → List Entity → Result (BoundedError Error) (List Entity)
  within_limit limit out = if ltb limit (length out) then err limit_exceeded else ok out

  -- With a limit that is positive.
  unfoldable pub merge_up_to :
      ℕ → Source Error → List Entity → Result (BoundedError Error) (List Entity)
  unfolding advance_to merge_loop within_limit need_of appends
  merge_up_to limit source adds = do
    (cur, rows) ← advance_to source.ending source.rows
    out ← merge_loop (appends (need_of limit)) source.ending cur rows adds
    within_limit limit out

  unfoldable pub merge_bounded :
      Source Error → List Entity → ℤ → Result (BoundedError Error) (List Entity)
  unfolding merge_up_to
  merge_bounded source adds (pos zero) = err bad_limit
  merge_bounded source adds (negsuc n) = err bad_limit
  merge_bounded source adds (pos (suc n)) = merge_up_to (suc n) source adds
