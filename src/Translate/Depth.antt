-- ===== src/Translate/Depth.antt =====
-- The check of the operators passes what `ConditionToFilter` translates, up to the depth limit.
use Prim.Native.Nat.{max}
use cyoda_go_spi.Base.{
  ◌≡◌, refl, subst, ℕ, zero, suc, ◌≤◌, none, some, Option, Bytes, codes, ok, arith, ok-injective,
}
use cyoda_go_spi.Operators.{group_operator_to_filter_op}
use cyoda_go_spi.Operand.{Operand, missing, text, Operands, end, ◌▷◌}
use cyoda_go_spi.Conditions.{
  Condition, Conditions, simple, lifecycle, group, array_clause, function, nil, foreign, done, ◌⨾◌,
  element_leaves, clause_of, desugar_array_condition, desugar_condition,
}
use cyoda_go_spi.Conditions.Settled.{clause-Accepted}
use cyoda_go_spi.Translate.{
  Filter, FieldsMap, condition_to_filter, CheckError, check_operator, check_children,
  validate_operators_at, validate_condition_operators, max_condition_depth,
}
use cyoda_go_spi.Translate.HasFilter.{PositionsFit}
use cyoda_go_spi.Translate.Steps.{OperandFits}
use cyoda_go_spi.Translate.Accepts.{Translatable, AllTranslatable, condition_to_filter-Translatable}

-- The levels that the check goes down: an array clause is checked as the group of its leaves.
unfoldable mutual
  pub height : Condition → ℕ
  height (group op cs) = suc (height_of cs)
  height (array_clause p op vs) = 3
  height _ = 1

  pub height_of : Conditions → ℕ
  height_of done = 0
  height_of (c ⨾ cs) = max (height c) (height_of cs)

known_operator : (op : Bytes) (v : Operand) → OperandFits op v → check_operator op ≡ none
unfolding check_operator
known_operator op v (f, e, fits) = rw (e, check_operator)

-- Leaves are checked one level deep.
leaves_pass :
    (left : ℕ) (p op : Bytes) (i : ℕ) (vs : Operands)
    → PositionsFit p op i vs
    → check_children (validate_operators_at (suc left)) (element_leaves p op i vs) ≡ none
unfolding element_leaves check_children validate_operators_at
leaves_pass left p op i end h = refl
leaves_pass left p op i (missing ▷ vs) h = leaves_pass left p op (suc i) vs h
leaves_pass left p op i (text s ▷ vs) h =
    rw (known_operator op (text s) h.0.1, check_children) (leaves_pass left p op (suc i) vs h.1)
leaves_pass left p op i (v ▷ vs) h =
    rw (known_operator op v h.0.1, check_children) (leaves_pass left p op (suc i) vs h.1)

clause_passes :
    (left : ℕ) (p : Bytes) (ls : Conditions) (d : Condition)
    → clause_of p ls ≡ ok d
    → ((n : ℕ) → check_children (validate_operators_at (suc n)) ls ≡ none)
    → validate_operators_at (suc (suc left)) d ≡ none
unfolding clause_of validate_operators_at check_children group_operator_to_filter_op
clause_passes left p done d h k = cc h
clause_passes left p (leaf ⨾ done) d h k =
    subst (λ c. validate_operators_at (suc (suc left)) c ≡ none) (ok-injective leaf d h)
      (first_passes (validate_operators_at (suc (suc left)) leaf) (k (suc left)))
  where
    first_passes :
        (o : Option CheckError)
        → elim o as (λ _. Option CheckError) [ some e ↦ some e | none ↦ none ] ≡ none
        → o ≡ none
    first_passes none e = refl
    first_passes (some w) e = cc e
clause_passes left p (leaf ⨾ next ⨾ more) d h k =
    subst (λ c. validate_operators_at (suc (suc left)) c ≡ none)
      (ok-injective (group (codes "AND") (leaf ⨾ next ⨾ more)) d h) (k left)

array_passes :
    (left : ℕ) (p op : Bytes) (vs : Operands) (d : Condition)
    → desugar_condition (array_clause p op vs) ≡ ok d
    → PositionsFit p op 0 vs
    → validate_operators_at (suc (suc (suc left))) (array_clause p op vs) ≡ none
unfolding desugar_condition desugar_array_condition validate_operators_at
array_passes left p op vs d e fit =
    rw (e, validate_operators_at, desugar_array_condition)
      (clause_passes left p (element_leaves p op 0 vs) d e (λ n. leaves_pass n p op 0 vs fit))

mutual
  unfolding validate_operators_at check_children height Translatable

  passes :
      (left : ℕ) (c : Condition)
      → height c ≤ left
      → Translatable c
      → validate_operators_at left c ≡ none
  passes zero (simple p op v) l t = absurd (omega (arith, l))
  passes zero (lifecycle g op v) l t = absurd (omega (arith, l))
  passes zero (group op cs) l t = absurd (omega (arith, l))
  passes zero (array_clause p op vs) l t = absurd (omega (arith, l))
  passes (suc left) (simple p op v) l t = known_operator op v t.1
  passes (suc left) (lifecycle g op v) l t = known_operator op v t
  passes (suc left) (group op cs) l ((o, e), t) =
      rw (e, validate_operators_at) (all_pass left cs (omega (arith, l)) t)
  passes (suc (suc (suc left))) (array_clause p op vs) l (t, fit) =
      let (d, e) = clause-Accepted p op vs t in array_passes left p op vs d e fit
  passes (suc zero) (array_clause p op vs) l t = absurd (omega (arith, l))
  passes (suc (suc zero)) (array_clause p op vs) l t = absurd (omega (arith, l))
  passes left (function raw c) l t = absurd t
  passes left nil l t = absurd t
  passes left foreign l t = absurd t

  all_pass :
      (left : ℕ) (cs : Conditions)
      → height_of cs ≤ left
      → AllTranslatable cs
      → check_children (validate_operators_at left) cs ≡ none
  all_pass left done l t = refl
  all_pass left (c ⨾ cs) l (t, ts) =
      rw (passes left c (omega (arith, l)) t, check_children)
        (all_pass left cs (omega (arith, l)) ts)

-- A condition whose height is within the depth limit and that `ConditionToFilter` translates passes
-- the check of its operators. The height counts a leaf as 1 and an array clause as 3.
pub validate_condition_operators-condition_to_filter :
    (c : Condition) (fields : FieldsMap) (f : Filter)
    → height c ≤ max_condition_depth
    → condition_to_filter c fields ≡ ok f
    → validate_condition_operators c ≡ none
unfolding validate_condition_operators
validate_condition_operators-condition_to_filter c fields f l h =
    passes max_condition_depth c l ((condition_to_filter-Translatable fields c).0 (f, h))
