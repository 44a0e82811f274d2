-- ===== src/Numeric/Search.antt =====
-- The search for a number: the expansion of an operand over the declared types, and the loop of the leaf
-- over it, answer the plain comparison of the two numbers.
use cyoda_go_spi.Base.{
  ℕ, any_of, ◌≡◌, ◌⊎◌, refl, sym, ap, ◌∙◌, arith, inl, inr, true, false, ◌==◌, ==_iff, Bool,
  Bool-cases, ◌||◌, ◌&&◌, List, [], ◌∷◌, All, All-append, All_split, subst, if◌then◌else◌, Option,
  none, some,
}
use cyoda_go_spi.Base.Int.{pos, ◌≤ℤ◌}
use cyoda_go_spi.Types.{DataType, integer, is_numeric, numeric_family}
use cyoda_go_spi.Operators.{cmp_result}
use cyoda_go_spi.Decimal.{Decimal, cmp, max_int32, IsInt32, strip_trailing_zeros}
use cyoda_go_spi.Numeric.{
  NumericSubCondition, holds, admits_numeric, for_types, of_family, numeric_declared, fold_to_int,
  expand_folded, expand_numeric_operand, expand_decimal_family, expand_int_family,
  expand_compare_number, try_numeric, decide, eval_compare_number, eval_leaf_number, is_negative_op,
}
use cyoda_go_spi.Numeric.Grid.{Comparison, op_of}
use cyoda_go_spi.Numeric.Values.{strip-IsInt32, Last, strip-Last, cmp-strip_right}
use cyoda_go_spi.Numeric.Branches.{want, Answers}
use cyoda_go_spi.Numeric.Families.{
  decimal-Answers, int-Answers, Folds, fold_to_int-Folds, admits-whole,
}

-- Some declared type admits the number.
abbrev pub admitted : Decimal → List DataType → Bool
admitted x = any_of (λ t. admits_numeric t x)

-- The same among the types of one family.
abbrev admitted_in : ℕ → Decimal → List DataType → Bool
admitted_in n x [] = false
admitted_in n x (t ∷ ts) = numeric_family t == n && admits_numeric t x || admitted_in n x ts

abbrev Untried : Decimal → NumericSubCondition → Type 0
Untried x s = admits_numeric s.kind x ≡ false

module _ (c : Comparison) (x : Decimal) (w : Bool) where
  abbrev Fits : NumericSubCondition → Type 0
  Fits s = admits_numeric s.kind x ≡ true → holds x s ≡ w

  -- The loop, where every condition that is tried answers `w`, and the polarity does where none is.
  decide-try_numeric :
      (cs : List NumericSubCondition) (had : Bool)
      → All Fits cs
      → (had ≡ true → w ≡ false)
      → (had ≡ false → All (Untried x) cs → is_negative_op (op_of c) ≡ w)
      → decide (try_numeric x cs had) (op_of c) ≡ w
  unfolding decide try_numeric
  decide-try_numeric [] true fits h u = sym (h refl)
  decide-try_numeric [] false fits h u = u refl tt
  decide-try_numeric (s ∷ cs) had (fit, fits) h u = elim (Bool-cases (admits_numeric s.kind x)) [
    | inl a ↦ elim (Bool-cases (holds x s)) [
      | inl k ↦ rw (a, k) (sym k ∙ fit a)
      | inr k ↦
          rw (a, k) (decide-try_numeric cs true fits (λ z. sym (fit a) ∙ k) (λ z. absurd (clash z)))
    ]
    | inr a ↦ rw a (decide-try_numeric cs had fits h (λ z l. u z (a, l)))
  ]
    where
      clash : true ≡ false → ⊥
      clash e = absurd (ground (arith, e))

  -- The conditions of a family, each of whose types answers.
  module _ (n : ℕ) (f : DataType → List NumericSubCondition)
      (answers : (t : DataType)
        → numeric_family t ≡ n
        → Answers (λ t. admits_numeric t x) c w x t (f t)) where
    branch-Fits : (t : DataType) → numeric_family t ≡ n → All Fits (f t)
    branch-Fits t h = of_answer (answers t h)
      where
        of_answer : Answers (λ t. admits_numeric t x) c w x t (f t) → All Fits (f t)
        of_answer (inl (e, k)) = rw e tt
        of_answer (inr (s, e, d, k)) =
            rw e ((λ a. k (sym (ap (λ t. admits_numeric t x) d) ∙ a)), tt)

    types-Fits : (ts : List DataType) → All Fits (for_types f (of_family n ts))
    unfolding for_types of_family
    types-Fits [] = tt
    types-Fits (t ∷ ts) = elim (Bool-cases (numeric_family t == n)) [
      | inl e ↦ rw e (All-append Fits (f t) _ (branch-Fits t ((==_iff _ _).0 e)) (types-Fits ts))
      | inr e ↦ rw e (types-Fits ts)
    ]

    branch-Untried :
        (t : DataType)
        → numeric_family t ≡ n
        → admits_numeric t x ≡ true
        → All (Untried x) (f t)
        → is_negative_op (op_of c) ≡ w
    branch-Untried t h a u = of_answer (answers t h)
      where
        clash : (b : Bool) → b ≡ true → b ≡ false → ⊥
        clash b e e' = absurd (ground (arith, e, e'))

        of_answer : Answers (λ t. admits_numeric t x) c w x t (f t) → is_negative_op (op_of c) ≡ w
        of_answer (inl (e, k)) = k a
        of_answer (inr (s, e, d, k)) =
            absurd (clash _ (ap (λ t. admits_numeric t x) d ∙ a) (subst (All (Untried x)) e u).0)

    types-Untried :
        (ts : List DataType)
        → admitted_in n x ts ≡ true
        → All (Untried x) (for_types f (of_family n ts))
        → is_negative_op (op_of c) ≡ w
    unfolding for_types of_family
    types-Untried [] h u = absurd (ground (arith, h))
    types-Untried (t ∷ ts) h u = elim (Bool-cases (numeric_family t == n)) [
      | inl e ↦ let (l, r) = split (subst Kept e u) in of_type e l (λ k. types-Untried ts k r)
      | inr e ↦ types-Untried ts (other e h) (subst Kept e u)
    ]
      where
        Kept : Bool → Type 0
        Kept b = All (Untried x) (for_types f (if b then t ∷ of_family n ts else of_family n ts))

        split : Kept true → All (Untried x) (f t) × All (Untried x) (for_types f (of_family n ts))
        split l = All_split (Untried x) (f t) _ l

        other :
            (numeric_family t == n) ≡ false
            → admitted_in n x (t ∷ ts) ≡ true
            → admitted_in n x ts ≡ true
        other e h = ground (arith, e, h)

        here : admits_numeric t x ≡ false → admitted_in n x ts ≡ true
        here a = ground (arith, a, h)

        of_type :
            (numeric_family t == n) ≡ true
            → All (Untried x) (f t)
            → (admitted_in n x ts ≡ true → is_negative_op (op_of c) ≡ w)
            → is_negative_op (op_of c) ≡ w
        of_type e l rest = elim (Bool-cases (admits_numeric t x)) [
          | inl a ↦ branch-Untried t ((==_iff _ _).0 e) a l
          | inr a ↦ rest (here a)
        ]

families : (t : DataType) → is_numeric t ≡ true → (numeric_family t ≡ 1) ⊎ (numeric_family t ≡ 2)
families integer h = inl refl
families _ h = ground (arith, h)

admits-numeric : (t : DataType) (x : Decimal) → admits_numeric t x ≡ true → is_numeric t ≡ true
unfolding admits_numeric
admits-numeric t x a = ground (arith, a)

admitted-admitted_in :
    (x : Decimal) (ts : List DataType)
    → admitted x ts ≡ true
    → (admitted_in 2 x ts ≡ true) ⊎ (admitted_in 1 x ts ≡ true)
admitted-admitted_in x [] h = absurd (ground (arith, h))
admitted-admitted_in x (t ∷ ts) h = elim (Bool-cases (admits_numeric t x)) [
  | inl a ↦ elim (families t (numeric a)) [
    | inl e ↦ inr (ground (arith, e, a))
    | inr e ↦ inl (ground (arith, e, a))
  ]
  | inr a ↦ elim (admitted-admitted_in x ts (ground (arith, a, h))) [
    | inl i ↦ inl (ground (arith, i))
    | inr i ↦ inr (ground (arith, i))
  ]
]
  where
    numeric : admits_numeric t x ≡ true → is_numeric t ≡ true
    numeric a = admits-numeric t x a

-- The two families of an operand that is stripped.
module _ (c : Comparison) (x v : Decimal) (b : IsInt32 x.scale) (last : Last v)
    (m : v.scale ≤ℤ max_int32) where
  -- A value that an integer type admits is whole.
  admitted_in-whole :
      (ts : List DataType) → admitted_in 1 x ts ≡ true → (strip_trailing_zeros x).scale ≤ℤ pos 0
  admitted_in-whole [] h = absurd (ground (arith, h))
  admitted_in-whole (t ∷ ts) h = elim (Bool-cases (numeric_family t == 1 && admits_numeric t x)) [
    | inl e ↦ admits-whole c x v b t (ground (arith, e)) (ground (arith, e))
    | inr e ↦ admitted_in-whole ts (ground (arith, e, h))
  ]

  int-Fits :
      (o : Option Decimal) (ts : List DataType)
      → Folds c x v b o
      → All (Fits c x (want c x v)) (expand_folded o (of_family 1 ts) (op_of c))
  unfolding expand_folded
  int-Fits none ts h = tt
  int-Fits (some f) ts h = types-Fits c x (want c x v) 1 _ (λ t e. int-Answers c x v b f t e h) ts

  int-Untried :
      (o : Option Decimal) (ts : List DataType)
      → Folds c x v b o
      → admitted_in 1 x ts ≡ true
      → All (Untried x) (expand_folded o (of_family 1 ts) (op_of c))
      → is_negative_op (op_of c) ≡ want c x v
  unfolding expand_folded
  int-Untried none ts h a u = sym (h (admitted_in-whole ts a))
  int-Untried (some f) ts h a u =
      types-Untried c x (want c x v) 1 _ (λ t e. int-Answers c x v b f t e h) ts a u

  expanded-want :
      (ts : List DataType)
      → admitted x ts ≡ true
      → decide (try_numeric x (expand_numeric_operand v ts (op_of c)) false) (op_of c) ≡ want c x v
  unfolding expand_numeric_operand expand_decimal_family expand_int_family
  expanded-want ts a =
      decide-try_numeric c x (want c x v) _ false
        (All-append (Fits c x (want c x v)) _ _ decimals integers) (λ z. absurd (clash z))
        (λ z u. untried (All_split (Untried x) _ _ u))
    where
      clash : false ≡ true → ⊥
      clash e = absurd (ground (arith, e))

      decimals : All (Fits c x (want c x v)) (expand_decimal_family v (of_family 2 ts) (op_of c))
      decimals = types-Fits c x (want c x v) 2 _ (λ t e. decimal-Answers c x v b t last m e) ts

      folds : Folds c x v b (fold_to_int v (op_of c))
      folds = fold_to_int-Folds c x v b last

      integers : All (Fits c x (want c x v)) (expand_int_family v (of_family 1 ts) (op_of c))
      integers = int-Fits (fold_to_int v (op_of c)) ts folds

      untried :
          All (Untried x) (expand_decimal_family v (of_family 2 ts) (op_of c))
            × All (Untried x) (expand_int_family v (of_family 1 ts) (op_of c))
          → is_negative_op (op_of c) ≡ want c x v
      untried (l, r) = elim (admitted-admitted_in x ts a) [
        | inl i ↦
            types-Untried c x (want c x v) 2 _ (λ t e. decimal-Answers c x v b t last m e) ts i l
        | inr i ↦ int-Untried (fold_to_int v (op_of c)) ts folds i r
      ]

pub admitted-numeric_declared :
    (x : Decimal) (ts : List DataType)
    → admitted x ts ≡ true
    → admitted x (numeric_declared ts) ≡ true
unfolding numeric_declared
admitted-numeric_declared x [] h = h
admitted-numeric_declared x (t ∷ ts) h = elim (Bool-cases (is_numeric t)) [
  | inl e ↦ rw e (elim (Bool-cases (admits_numeric t x)) [
    | inl a ↦ ground (arith, a)
    | inr a ↦ ground (arith, a, admitted-numeric_declared x ts (ground (arith, a, h)))
  ])
  | inr e ↦ rw e (admitted-numeric_declared x ts (rest e))
]
  where
    not_both : (b : Bool) → b ≡ true → b ≡ false → ⊥
    not_both b h k = absurd (ground (arith, h, k))

    rest : is_numeric t ≡ false → admitted x ts ≡ true
    rest e = elim (Bool-cases (admits_numeric t x)) [
      | inl a ↦ absurd (not_both _ (admits-numeric t x a) e)
      | inr a ↦ ground (arith, a, h)
    ]

-- Search and comparison agree. Let the scales of an operand and of a stored number be int32s, and
-- let some declared type admit the stored number. Then for each of the six comparing operators the
-- leaf answers how the number compares with the operand, however the operand was split over the
-- types, rounded, folded, dropped or turned into a test of existence.
pub eval_leaf_number-cmp_result :
    (c : Comparison) (operand x : Decimal) (declared : List DataType)
    → IsInt32 operand.scale
    → IsInt32 x.scale
    → admitted x declared ≡ true
    → eval_leaf_number (op_of c) operand declared (some x) ≡ cmp_result (cmp x operand) (op_of c)
unfolding eval_leaf_number eval_compare_number expand_compare_number
eval_leaf_number-cmp_result c operand x declared p b a =
    expanded-want c x (strip_trailing_zeros operand) b (strip-Last operand p.0)
      (strip-IsInt32 operand p).1 (numeric_declared declared)
      (admitted-numeric_declared x declared a)
    ∙ ap (λ r. cmp_result r (op_of c)) (cmp-strip_right x operand p.0)
