-- ===== src/Conditions/Desugar.antt =====
-- Rewriting the array clauses keeps what a condition says and leaves no array clause.
use cyoda_go_spi.Base.{
  ◌≡◌, refl, arith, bind-ok, ap, ap₂, ◌∙◌, subst, ℕ, suc, Bool, true, ◌&&◌, ◌∷◌, Bytes, codes,
  all_of, ok, ok-injective, ◌>>=◌,
}
use cyoda_go_spi.Operators.{group_operator_to_filter_op}
use cyoda_go_spi.Operand.{Operand, missing, text, Operands, end, ◌▷◌}
use cyoda_go_spi.Conditions.{
  Condition, Conditions, simple, lifecycle, group, array_clause, function, nil, foreign, done, ◌⨾◌,
  desugar_array_element_path, element_leaves, clause_of, desugar_array_condition, desugar_condition,
  desugar_conditions,
}
use cyoda_go_spi.Conditions.Meaning.{combine, positions_hold, holds, each_holds}

module _ (simple_holds lifecycle_holds : Bytes → Bytes → Operand → Bool) where
  abbrev the_leaves : Conditions → Bool
  the_leaves cs = all_of (λ b. b) (each_holds simple_holds lifecycle_holds cs)

  leaves-hold :
      (p op : Bytes) (i : ℕ) (vs : Operands)
      → the_leaves (element_leaves p op i vs)
        ≡ positions_hold simple_holds lifecycle_holds p op i vs
  unfolding element_leaves positions_hold each_holds
  leaves-hold p op i end = refl
  leaves-hold p op i (missing ▷ vs) = leaves-hold p op (suc i) vs
  leaves-hold p op i (text s ▷ vs) =
      ap (λ b. simple_holds (desugar_array_element_path p i) op (text s) && b)
        (leaves-hold p op (suc i) vs)
  leaves-hold p op i (v ▷ vs) =
      ap (λ b. simple_holds (desugar_array_element_path p i) op v && b)
        (leaves-hold p op (suc i) vs)

  and_true : (b : Bool) → b ≡ (b && true)
  and_true b = ground arith

  clause_of-holds :
      (p : Bytes) (ls : Conditions) (d : Condition)
      → clause_of p ls ≡ ok d
      → holds simple_holds lifecycle_holds d ≡ the_leaves ls
  unfolding clause_of holds each_holds group_operator_to_filter_op
  clause_of-holds p done d h = cc h
  clause_of-holds p (leaf ⨾ done) d h =
      subst (λ c. holds simple_holds lifecycle_holds c ≡ the_leaves (leaf ⨾ done))
        (ok-injective leaf d h) (and_true (holds simple_holds lifecycle_holds leaf))
  clause_of-holds p (leaf ⨾ next ⨾ more) d h =
      subst (λ c. holds simple_holds lifecycle_holds c ≡ the_leaves (leaf ⨾ next ⨾ more))
        (ok-injective (group (codes "AND") (leaf ⨾ next ⨾ more)) d h) refl

  abbrev Same : Condition → Condition → Type 0
  Same d c = holds simple_holds lifecycle_holds d ≡ holds simple_holds lifecycle_holds c

  abbrev SameEach : Conditions → Conditions → Type 0
  SameEach ds cs =
      each_holds simple_holds lifecycle_holds ds ≡ each_holds simple_holds lifecycle_holds cs

  mutual
    unfolding desugar_condition desugar_array_condition holds

    same_meaning : (c d : Condition) → desugar_condition c ≡ ok d → Same d c
    same_meaning (simple p op v) d h =
        subst (λ e. Same e (simple p op v)) (ok-injective (simple p op v) d h) refl
    same_meaning (lifecycle p op v) d h =
        subst (λ e. Same e (lifecycle p op v)) (ok-injective (lifecycle p op v) d h) refl
    same_meaning (function r c) d h =
        subst (λ e. Same e (function r c)) (ok-injective (function r c) d h) refl
    same_meaning nil d h = subst (λ e. Same e nil) (ok-injective nil d h) refl
    same_meaning foreign d h = subst (λ e. Same e foreign) (ok-injective foreign d h) refl
    same_meaning (array_clause p op vs) d h =
        clause_of-holds p (element_leaves p op 0 vs) d h ∙ leaves-hold p op 0 vs
    same_meaning (group op cs) d h =
        let (ds, e, k) = bind-ok (desugar_conditions cs) (λ ds. ok (group op ds)) d h in
        subst (λ g. Same g (group op cs)) (ok-injective (group op ds) d k)
          (ap (combine (group_operator_to_filter_op op)) (same_each cs ds e))

    same_each : (cs ds : Conditions) → desugar_conditions cs ≡ ok ds → SameEach ds cs
    same_each done ds h = subst (λ l. SameEach l done) (ok-injective done ds h) refl
    same_each (c ⨾ cs) ds h =
        let (d, e, k) =
          bind-ok (desugar_condition c) (λ d. desugar_conditions cs >>= λ ds. ok (d ⨾ ds)) ds h in
        let (ds', e', k') = bind-ok (desugar_conditions cs) (λ ds. ok (d ⨾ ds)) ds k in
        subst (λ l. SameEach l (c ⨾ cs)) (ok-injective (d ⨾ ds') ds k')
          (ap₂ (λ b bs. b ∷ bs) (same_meaning c d e) (same_each cs ds' e'))

  -- For every answer of the leaves, a condition and what it is desugared to say the same: an array
  -- clause says what its positions say together.
  pub desugar_condition-holds :
      (c d : Condition)
      → desugar_condition c ≡ ok d
      → holds simple_holds lifecycle_holds d ≡ holds simple_holds lifecycle_holds c
  desugar_condition-holds c d h = same_meaning c d h
