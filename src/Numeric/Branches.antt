-- ===== src/Numeric/Branches.antt =====
-- The sub-conditions of one type: what each answers for a stored value that the type admits.
use cyoda_go_spi.Base.{
  ◌≡◌, ◌⊎◌, refl, sym, ◌∙◌, arith, inl, inr, true, false, Bool, Bool-cases, ◌||◌, List, [], ◌∷◌,
  if◌then◌else◌,
}
use cyoda_go_spi.Base.Int.{pos, ltb_ℤ}
use cyoda_go_spi.Types.{DataType}
use cyoda_go_spi.Operators.{cmp_result}
use cyoda_go_spi.Decimal.{Decimal, cmp}
use cyoda_go_spi.Numeric.{
  NumericSubCondition, condition, existence, holds, by_range, to_range, is_in_range, is_less_op,
  is_great_op, is_negative_op,
}
use cyoda_go_spi.Numeric.Grid.{Comparison, op_of}
use cyoda_go_spi.Numeric.Values.{above-want, below-want}

-- The answer for a value and an operand under an operator.
abbrev pub want : Comparison → Decimal → Decimal → Bool
want c x v = cmp_result (cmp x v) (op_of c)

-- Either nothing is left to try for a type, and the polarity of the operator is the answer, or one
-- condition is, and it answers right. Both hold for values that the type admits.
abbrev pub Answers :
    (DataType → Bool) → Comparison → Bool → Decimal → DataType → List NumericSubCondition → Type 0
Answers admits c w x t cs =
    ((cs ≡ []) × (admits t ≡ true → is_negative_op (op_of c) ≡ w))
    ⊎ ((s : NumericSubCondition) × (cs ≡ s ∷ []) × (s.kind ≡ t) × (admits t ≡ true → holds x s ≡ w))

pub to_range-inside :
    (v low high : Decimal)
    → is_in_range (to_range v low high) ≡ true
    → (ltb_ℤ (cmp v low) (pos 0) ≡ false) × (ltb_ℤ (pos 0) (cmp v high) ≡ false)
unfolding to_range
to_range-inside v low high h = ground (arith, h)

-- What the two ends of a range leave of a branch.
module _ (admits : DataType → Bool) (c : Comparison) (x v : Decimal) (t : DataType) where
  -- A bare test of existence, where the operator is on the side of the values.
  existence-Answers :
      (side : Bool)
      → (admits t ≡ true → want c x v ≡ (side || is_negative_op (op_of c)))
      → Answers admits c (want c x v) x t (if side then existence t ∷ [] else [])
  existence-Answers true h = inr (existence t, refl, refl, λ a. sym (h a))
  existence-Answers false h = inl (refl, λ a. sym (h a))

  pub by_range-Answers :
      (low high : Decimal) (inside : List NumericSubCondition)
      → (admits t ≡ true → ltb_ℤ (cmp x low) (pos 0) ≡ false)
      → (admits t ≡ true → ltb_ℤ (pos 0) (cmp x high) ≡ false)
      → (ltb_ℤ (cmp v low) (pos 0) ≡ false
          → ltb_ℤ (pos 0) (cmp v high) ≡ false
          → Answers admits c (want c x v) x t inside)
      → Answers admits c (want c x v) x t (by_range (to_range v low high) t (op_of c) inside)
  unfolding by_range to_range
  by_range-Answers low high inside l h k = elim (Bool-cases (ltb_ℤ (cmp v low) (pos 0))) [
    | inl e ↦ rw e (existence-Answers (is_great_op (op_of c)) (λ a. below-want c x v low (l a) e))
    | inr e ↦ elim (Bool-cases (ltb_ℤ (pos 0) (cmp v high))) [
      | inl f ↦
          rw (e, f) (existence-Answers (is_less_op (op_of c)) (λ a. above-want c x v high (h a) f))
      | inr f ↦ rw (e, f) (k e f)
    ]
  ]

  pub condition-Answers :
      (o : Decimal)
      → (admits t ≡ true → want c x o ≡ want c x v)
      → Answers admits c (want c x v) x t (condition t o (op_of c) ∷ [])
  condition-Answers o h = inr (condition t o (op_of c), refl, refl, h)

pub Answers-map :
    (admits : DataType → Bool) (c : Comparison) (x : Decimal) (t : DataType) (w w' : Bool)
    (cs : List NumericSubCondition)
    → (admits t ≡ true → w ≡ w')
    → Answers admits c w x t cs
    → Answers admits c w' x t cs
Answers-map admits c x t w w' cs h (inl (e, k)) = inl (e, λ a. k a ∙ h a)
Answers-map admits c x t w w' cs h (inr (s, e, d, k)) = inr (s, e, d, λ a. k a ∙ h a)
