-- ===== src/Numeric/Between.antt =====
-- eval_leaf.go: `rangeMatch`, and what `evalBetween` does with a stored number. A stored number that does
-- not parse is `none`; the two bounds are those that `expandBetween` has read.
use cyoda_go_spi.Base.{
  ◌≡◌, arith, Bool, true, false, ◌&&◌, List, Option, none, some, any_of, if◌then◌else◌,
}
use cyoda_go_spi.Base.Int.{ℤ, pos, cmp_ℤ, ltb_ℤ, leb_ℤ}
use cyoda_go_spi.Types.{DataType}
use cyoda_go_spi.Operators.{cmp_result}
use cyoda_go_spi.Decimal.{Decimal, IsInt32, cmp}
use cyoda_go_spi.Decimal.Aligned.{at}
use cyoda_go_spi.Decimal.Order.{cmp-cmp_ℤ}
use cyoda_go_spi.Numeric.{admits_numeric, numeric_declared, eval_leaf_number}
use cyoda_go_spi.Numeric.Grid.{Comparison, op_of, greater, at_least, less, at_most, common}
use cyoda_go_spi.Numeric.Search.{admitted, admitted-numeric_declared, eval_leaf_number-cmp_result}

pub range_match : ℤ → ℤ → Bool → Bool
range_match lo_cmp hi_cmp true = leb_ℤ lo_cmp (pos 0) && leb_ℤ hi_cmp (pos 0)
range_match lo_cmp hi_cmp false = ltb_ℤ lo_cmp (pos 0) && ltb_ℤ hi_cmp (pos 0)

pub eval_between_number : Bool → Decimal → Decimal → List DataType → Option Decimal → Bool
eval_between_number inclusive lo hi declared none = false
eval_between_number inclusive lo hi declared (some x) =
    if any_of (λ u. admits_numeric u x) (numeric_declared declared)
    then range_match (cmp lo x) (cmp x hi) inclusive
    else false

-- The single comparisons that the two bounds stand for.
abbrev pub from : Bool → Comparison
from true = at_least
from false = greater

abbrev pub upto : Bool → Comparison
upto true = at_most
upto false = less

-- A bound, seen from either side.
flipped_bound :
    (inclusive : Bool) (lo x : Decimal) (h : ℤ)
    → range_match (cmp lo x) h inclusive
      ≡ (cmp_result (cmp x lo) (op_of (from inclusive)) && cmp_result h (op_of (upto inclusive)))
unfolding range_match cmp_result
flipped_bound inclusive lo x h =
    rw (cmp-cmp_ℤ s lo x (omega arith) (omega arith), cmp-cmp_ℤ s x lo (omega arith) (omega arith))
      (sides inclusive (at s lo) (at s x))
  where
    s : ℤ
    s = common lo x x

    sides :
        (inclusive : Bool) (l v : ℤ)
        → range_match (cmp_ℤ l v) h inclusive ≡ (
            cmp_result (cmp_ℤ v l) (op_of (from inclusive))
            && cmp_result h (op_of (upto inclusive)))
    sides true l v = ground arith
    sides false l v = ground arith

-- For bounds and a stored number whose scales are int32s, where some declared type admits the
-- number, BETWEEN_INCLUSIVE is GREATER_OR_EQUAL of the lower bound and LESS_OR_EQUAL of the upper
-- one, and BETWEEN the same with the strict operators, as the leaf answers them.
pub eval_between_number-eval_leaf_number :
    (inclusive : Bool) (lo hi x : Decimal) (declared : List DataType)
    → IsInt32 lo.scale
    → IsInt32 hi.scale
    → IsInt32 x.scale
    → admitted x declared ≡ true
    → eval_between_number inclusive lo hi declared (some x) ≡ (
        eval_leaf_number (op_of (from inclusive)) lo declared (some x)
        && eval_leaf_number (op_of (upto inclusive)) hi declared (some x))
unfolding eval_between_number
eval_between_number-eval_leaf_number inclusive lo hi x declared l h b a =
    rw
      (
        admitted-numeric_declared x declared a,
        eval_leaf_number-cmp_result (from inclusive) lo x declared l b a,
        eval_leaf_number-cmp_result (upto inclusive) hi x declared h b a,
      )
      (flipped_bound inclusive lo x (cmp x hi))
