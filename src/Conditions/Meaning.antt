-- ===== src/Conditions/Meaning.antt =====
-- What a condition says of an entity, given what each leaf alone says of it.
use cyoda_go_spi.Base.{
  ℕ, suc, Bool, true, false, not, ◌&&◌, List, [], ◌∷◌, Option, some, Bytes, all_of, any_of,
}
use cyoda_go_spi.Operators.{
  FilterOp, filter_and, filter_or, filter_not, group_operator_to_filter_op,
}
use cyoda_go_spi.Operand.{Operand, missing, Operands, end, ◌▷◌}
use cyoda_go_spi.Conditions.{
  Condition, Conditions, simple, lifecycle, group, array_clause, function, nil, foreign, done, ◌⨾◌,
  desugar_array_element_path,
}

-- The answer of a group from those of its members. NOT has one member.
abbrev pub combine : Option FilterOp → List Bool → Bool
combine (some filter_and) bs = all_of (λ b. b) bs
combine (some filter_or) bs = any_of (λ b. b) bs
combine (some filter_not) (b ∷ []) = not b
combine _ _ = false

module _ (simple_holds lifecycle_holds : Bytes → Bytes → Operand → Bool) where
  -- Every value that is not nil satisfies the operator at its position, counted from `i`.
  unfoldable pub positions_hold : Bytes → Bytes → ℕ → Operands → Bool
  positions_hold p op i end = true
  positions_hold p op i (missing ▷ vs) = positions_hold p op (suc i) vs
  positions_hold p op i (v ▷ vs) =
      simple_holds (desugar_array_element_path p i) op v && positions_hold p op (suc i) vs

  unfoldable mutual
    pub holds : Condition → Bool
    holds (simple p op v) = simple_holds p op v
    holds (lifecycle f op v) = lifecycle_holds f op v
    holds (group op cs) = combine (group_operator_to_filter_op op) (each_holds cs)
    holds (array_clause p op vs) = positions_hold p op 0 vs
    holds (function raw c) = false
    holds nil = false
    holds foreign = false

    pub each_holds : Conditions → List Bool
    each_holds done = []
    each_holds (c ⨾ cs) = holds c ∷ each_holds cs
