-- ===== src/Operators/Compare.antt =====
-- Comparisons under an operator: the two evaluators agree, and under the four range
-- operators a floored operand keeps its order.
use native.Mathlib.Nat.{mul-le-mul_right}
use cyoda_go_spi.Base.{
  ℕ, ◌≡◌, refl, inl, inr, Bool, true, false, ◌&&◌, if◌then◌else◌, arith, Bool-cases,
}
use cyoda_go_spi.Base.Int.{
  ℤ, pos, ◌+ℤ◌, ◌-ℤ◌, ◌*ℕ◌, ◌≤ℤ◌, ◌<ℤ◌, leb_ℤ, +ℤ_parts, -ℤ_parts, *ℕ_pos_part, *ℕ_neg_part,
}
use cyoda_go_spi.Operators.{
  FilterOp, filter_eq, filter_ne, filter_gt, filter_gte, filter_lt, filter_lte, cmp_result,
  compare_temporal, is_filter_ne, mutate_downscale_op, compare_instants,
}

-- Under every operator and for every pair of instants, `CompareTemporal` gives what `cmpResult`
-- gives for their difference; if one of the instants is missing, only the operator `ne` holds.
pub compare_temporal-cmp_result :
    (op : FilterOp) (stored cmp : ℤ) (stored_ok cmp_ok : Bool)
    → compare_temporal op stored stored_ok cmp cmp_ok
      ≡ (if stored_ok && cmp_ok then cmp_result (stored -ℤ cmp) op else is_filter_ne op)
unfolding compare_temporal compare_instants cmp_result
compare_temporal-cmp_result op stored cmp true true = present op stored cmp
  where
    present :
        (op : FilterOp) (stored cmp : ℤ)
        → compare_instants op stored cmp ≡ cmp_result (stored -ℤ cmp) op
    present filter_eq stored cmp = ground (arith, -ℤ_parts stored cmp)
    present filter_ne stored cmp = ground (arith, -ℤ_parts stored cmp)
    present filter_gt stored cmp = ground (arith, -ℤ_parts stored cmp)
    present filter_gte stored cmp = ground (arith, -ℤ_parts stored cmp)
    present filter_lt stored cmp = ground (arith, -ℤ_parts stored cmp)
    present filter_lte stored cmp = ground (arith, -ℤ_parts stored cmp)
    present _ stored cmp = refl
compare_temporal-cmp_result op stored cmp true false = refl
compare_temporal-cmp_result op stored cmp false cmp_ok = refl

pub data IsRange : FilterOp → Type 0 where
  range_gt : IsRange filter_gt
  range_gte : IsRange filter_gte
  range_lt : IsRange filter_lt
  range_lte : IsRange filter_lte

≤ℤ-*ℕ : (a b : ℤ) (m : ℕ) → a ≤ℤ b → a *ℕ m ≤ℤ b *ℕ m
≤ℤ-*ℕ a b m h = omega (arith, *ℕ_pos_part, *ℕ_neg_part, mul-le-mul_right m h)

-- Let `op` be one of `gt`, `gte`, `lt` and `lte`, and let `v` be an integer, below 0 or not, that is
-- floored to `f` units of size `k` and is not a whole number of units. Under the mutated operator
-- every whole number of units compares with `f` as it compares with `v` under `op`; a second
-- mutation does not change the operator again.
pub mutate_downscale_op-floor :
    {op : FilterOp} (k : ℕ) (v f x : ℤ)
    → IsRange op
    → f *ℕ k <ℤ v
    → v <ℤ (f +ℤ pos 1) *ℕ k
    → (cmp_result (x -ℤ f) (mutate_downscale_op op) ≡ cmp_result (x *ℕ k -ℤ v) op)
      × (mutate_downscale_op (mutate_downscale_op op) ≡ mutate_downscale_op op)
unfolding mutate_downscale_op cmp_result
mutate_downscale_op-floor {op} k v f x r lo hi = elim (Bool-cases (leb_ℤ x f)) [
  | inl e ↦ (low op r (omega (arith, lo, ≤ℤ-*ℕ x f k (at_most e))) (at_most e), settled op r)
  | inr e ↦
      (high op r (omega (arith, hi, ≤ℤ-*ℕ (f +ℤ pos 1) x k (above e))) (above e), settled op r)
]
  where
    at_most : leb_ℤ x f ≡ true → x ≤ℤ f
    at_most e = ground arith

    above : leb_ℤ x f ≡ false → f +ℤ pos 1 ≤ℤ x
    above e = ground (arith, +ℤ_parts f (pos 1))

    low :
        (op : FilterOp)
        → IsRange op
        → x *ℕ k <ℤ v
        → x ≤ℤ f
        → cmp_result (x -ℤ f) (mutate_downscale_op op) ≡ cmp_result (x *ℕ k -ℤ v) op
    low op range_gt p q = ground (arith, -ℤ_parts x f, -ℤ_parts (x *ℕ k) v)
    low op range_gte p q = ground (arith, -ℤ_parts x f, -ℤ_parts (x *ℕ k) v)
    low op range_lt p q = ground (arith, -ℤ_parts x f, -ℤ_parts (x *ℕ k) v)
    low op range_lte p q = ground (arith, -ℤ_parts x f, -ℤ_parts (x *ℕ k) v)

    high :
        (op : FilterOp)
        → IsRange op
        → v <ℤ x *ℕ k
        → f +ℤ pos 1 ≤ℤ x
        → cmp_result (x -ℤ f) (mutate_downscale_op op) ≡ cmp_result (x *ℕ k -ℤ v) op
    high op range_gt p q = ground (arith, +ℤ_parts f (pos 1), -ℤ_parts x f, -ℤ_parts (x *ℕ k) v)
    high op range_gte p q = ground (arith, +ℤ_parts f (pos 1), -ℤ_parts x f, -ℤ_parts (x *ℕ k) v)
    high op range_lt p q = ground (arith, +ℤ_parts f (pos 1), -ℤ_parts x f, -ℤ_parts (x *ℕ k) v)
    high op range_lte p q = ground (arith, +ℤ_parts f (pos 1), -ℤ_parts x f, -ℤ_parts (x *ℕ k) v)

    settled :
        (op : FilterOp)
        → IsRange op
        → mutate_downscale_op (mutate_downscale_op op) ≡ mutate_downscale_op op
    settled op range_gt = refl
    settled op range_gte = refl
    settled op range_lt = refl
    settled op range_lte = refl
