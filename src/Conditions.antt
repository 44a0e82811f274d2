-- ===== src/Conditions.antt =====
-- predicate/condition.go, and from condition_filter.go `DesugarCondition` with the path of an
-- element: the conditions of a search, and the rewriting of array clauses. A refusal is a
-- constructor that carries what the source's text quotes.
pub mod Meaning
pub mod Elements
pub mod Desugar
pub mod Settled
mod Tests
use cyoda_go_spi.Base.{
  ℕ, zero, suc, Bool, true, false, List, [], ◌∷◌, ◌++◌, Option, none, some, Bytes, codes, length,
  drop, take, ◌-◌, ◌==◌, if◌then◌else◌, Result, ok, err, ◌>>=◌,
}
use cyoda_go_spi.Base.Digits.{print}
use cyoda_go_spi.Like.{has_prefix}
use cyoda_go_spi.Operators.{same_bytes}
use cyoda_go_spi.Path.{PathSub, wildcard, index, PathHop, parse_filter_path, render_path_hops}
use cyoda_go_spi.Operand.{Operand, missing, Operands, end, ◌▷◌}

-- The fields stand in their Go order: of `simple` and `array_clause` the path, the operator and the
-- operands; of `function` the raw JSON and the pre-check. `nil` is the nil interface and `foreign` a
-- condition of a type that this module does not declare.
mutual
  pub data Condition : Type 0 where
    simple : Bytes → Bytes → Operand → Condition
    lifecycle : Bytes → Bytes → Operand → Condition
    group : Bytes → Conditions → Condition
    array_clause : Bytes → Bytes → Operands → Condition
    function : Bytes → Condition → Condition
    nil : Condition
    foreign : Condition

  -- `[]Condition`
  pub data Conditions : Type 0 where
    done : Conditions
    ◌⨾◌ : Condition → Conditions → Conditions

infixr 35 ◌⨾◌
-- `ErrArrayClauseTestsNothing`, with the path.
pub data DesugarError : Type 0 where
  tests_nothing : Bytes → DesugarError

abbrev pub json_path_leader : Bytes
json_path_leader = codes "$."

-- `strings.CutPrefix(p, "$.")`
unfoldable pub cut_leader : Bytes → Option Bytes
cut_leader p = if has_prefix json_path_leader p then some (drop 2 p) else none

-- `strings.HasSuffix(p, "[*]")`
unfoldable pub ends_in_wildcard : Bytes → Bool
ends_in_wildcard [] = false
ends_in_wildcard (c ∷ p) = if same_bytes (c ∷ p) (codes "[*]") then true else ends_in_wildcard p

-- The last subscript, if it is a wildcard, becomes the index; else the index is appended.
unfoldable pub set_last_sub : List PathSub → ℕ → List PathSub
set_last_sub [] i = index i ∷ []
set_last_sub (wildcard ∷ []) i = index i ∷ []
set_last_sub (index j ∷ []) i = index j ∷ index i ∷ []
set_last_sub (s ∷ t ∷ subs) i = s ∷ set_last_sub (t ∷ subs) i

unfoldable pub set_last : List PathHop → ℕ → List PathHop
unfolding set_last_sub
set_last [] i = []
set_last (h ∷ []) i = record { name = h.name; subs = set_last_sub h.subs i } ∷ []
set_last (h ∷ g ∷ hops) i = h ∷ set_last (g ∷ hops) i

-- The textual replacement, for a path that does not parse.
unfoldable pub subscript_text : Bytes → ℕ → Bytes
unfolding ends_in_wildcard
subscript_text p i =
    (if ends_in_wildcard p then take (length p - 3) p else p) ++ (b'[' ∷ print i ++ b']' ∷ [])

unfoldable pub parsed_element_path : Bytes → ℕ → Bytes → Bytes
unfolding set_last subscript_text
parsed_element_path p i rest = elim (parse_filter_path rest) [
  | err e ↦ subscript_text p i
  | ok [] ↦ subscript_text p i
  | ok (h ∷ hops) ↦ json_path_leader ++ render_path_hops (set_last (h ∷ hops) i) false
]

unfoldable pub desugar_array_element_path : Bytes → ℕ → Bytes
unfolding cut_leader parsed_element_path
desugar_array_element_path p i = elim (cut_leader p) [
  | none ↦ subscript_text p i
  | some rest ↦ parsed_element_path p i rest
]

-- The loop over the values: the leaves, from position `i` on.
unfoldable pub element_leaves : Bytes → Bytes → ℕ → Operands → Conditions
unfolding desugar_array_element_path
element_leaves p op i end = done
element_leaves p op i (missing ▷ vs) = element_leaves p op (suc i) vs
element_leaves p op i (v ▷ vs) =
    simple (desugar_array_element_path p i) op v ⨾ element_leaves p op (suc i) vs

-- The switch on the number of leaves.
unfoldable pub clause_of : Bytes → Conditions → Result DesugarError Condition
clause_of p done = err (tests_nothing p)
clause_of p (leaf ⨾ done) = ok leaf
clause_of p (leaf ⨾ more) = ok (group (codes "AND") (leaf ⨾ more))

unfoldable pub desugar_array_condition : Bytes → Bytes → Operands → Result DesugarError Condition
unfolding clause_of element_leaves
desugar_array_condition p op vs = clause_of p (element_leaves p op 0 vs)

unfoldable mutual
  pub desugar_condition : Condition → Result DesugarError Condition
  desugar_condition (array_clause p op vs) = desugar_array_condition p op vs
  desugar_condition (group op cs) = desugar_conditions cs >>= λ children. ok (group op children)
  desugar_condition (simple p op v) = ok (simple p op v)
  desugar_condition (lifecycle f op v) = ok (lifecycle f op v)
  desugar_condition (function raw c) = ok (function raw c)
  desugar_condition nil = ok nil
  desugar_condition foreign = ok foreign

  -- The loop over the children of a group.
  pub desugar_conditions : Conditions → Result DesugarError Conditions
  desugar_conditions done = ok done
  desugar_conditions (c ⨾ cs) =
      desugar_condition c >>= λ d. desugar_conditions cs >>= λ ds. ok (d ⨾ ds)
