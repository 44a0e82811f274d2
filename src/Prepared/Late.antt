-- ===== src/Prepared/Late.antt =====
-- The refusals of `Prepare` that no translation foresees, and the leaves that meet no other.
use cyoda_go_spi.Base.{
  ◌≡◌, refl, ◌∙◌, subst, inl, inr, not, ◌&&◌, none, some, Option, Bytes, Result, ok, err, ◌>>=◌,
  require, ok-injective, Option-cases, Bool-cases, if◌then◌else◌,
}
use cyoda_go_spi.Operators.{FilterOp, lookup_operator, map_operator, leaf_kind_of, ExpKind}
use cyoda_go_spi.Operators.Names.{map_operator-leaf_kind_of}
use cyoda_go_spi.Operand.{
  Operand, array, Operands, end, ◌▷◌, is_range, operand_string, values_to_strings,
}
use cyoda_go_spi.Operand.Valid.{Fits, single, unused, bounds, validate_operand-Fits}
use cyoda_go_spi.Translate.{Leaf, between_values}
use cyoda_go_spi.Translate.Steps.{no_range}
use cyoda_go_spi.Prepared.Kernels.{Kernel}
use cyoda_go_spi.Prepared.{
  PrepareError, not_arity, unknown_meta_path, no_expansion, no_pattern, leaf_hops, leaf_operand,
  check_operand, needs_pattern, with_pattern, check_leaf_operator, prepare_leaf,
}

-- The refusals that no translation foresees: a NOT without exactly one member, a field outside the
-- metadata's vocabulary, an operand that cannot be read as a declared type, a pattern that does not
-- compile.
abbrev pub IsLate : PrepareError → Type 0
IsLate not_arity = Unit
IsLate unknown_meta_path = Unit
IsLate no_expansion = Unit
IsLate no_pattern = Unit
IsLate _ = ⊥

-- A result that is a value or a late refusal.
abbrev pub OnlyLate {ℓ} : {A : Type ℓ} → Result PrepareError A → Type 0
OnlyLate (ok a) = Unit
OnlyLate (err e) = IsLate e

pub then-OnlyLate {ℓ κ} :
    {A : Type ℓ} {B : Type κ} (r : Result PrepareError A) (next : A → Result PrepareError B)
    → OnlyLate r
    → ((a : A) → r ≡ ok a → OnlyLate (next a))
    → OnlyLate (r >>= next)
then-OnlyLate (err e) next h k = h
then-OnlyLate (ok a) next h k = k a refl

module _ (K : Kernel) where
  with_pattern-OnlyLate : (op : FilterOp) (exp : K.Expansion) → OnlyLate (with_pattern K op exp)
  unfolding with_pattern
  with_pattern-OnlyLate op exp = elim (Bool-cases (needs_pattern op && not (K.has_pattern exp))) [
    | inl e ↦ rw (e, with_pattern) tt
    | inr e ↦ rw (e, with_pattern) tt
  ]

  require-OnlyLate : {A : Type 0} (o : Option A) → OnlyLate (require no_expansion o)
  require-OnlyLate none = tt
  require-OnlyLate (some a) = tt

  -- A leaf with a leaf operator, hops and an operand that fits.
  pub leaf-OnlyLate :
      (op : FilterOp) (l : Leaf)
      → (kind : ExpKind) × (leaf_kind_of op ≡ some kind)
      → OnlyLate (leaf_hops l.source l.path)
      → Fits op (leaf_operand op l)
      → OnlyLate (prepare_leaf K op l)
  unfolding prepare_leaf check_leaf_operator check_operand
  leaf-OnlyLate op l (kind, k) hops fits =
      rw (k, prepare_leaf, check_leaf_operator)
        (then-OnlyLate (leaf_hops l.source l.path) _ hops λ hs e.
          rw ((validate_operand-Fits op (leaf_operand op l)).1 fits, check_operand)
            (then-OnlyLate
              (require no_expansion
                (K.expand_leaf op (operand_string l.value) (values_to_strings l.values) l.declared))
              _ (require-OnlyLate _)
              λ exp e'.
                then-OnlyLate (with_pattern K op exp) _ (with_pattern-OnlyLate op exp) λ c e''. tt))

pub first-OnlyLate {ℓ κ} :
    {A : Type ℓ} {B : Type κ} (r : Result PrepareError A) (next : A → Result PrepareError B)
    → OnlyLate (r >>= next)
    → OnlyLate r
first-OnlyLate (err e) next h = h
first-OnlyLate (ok a) next h = tt

-- A name that is found stands for a leaf operator.
pub found-leaf :
    (name : Bytes) (op : FilterOp)
    → lookup_operator name ≡ some op
    → (kind : ExpKind) × (leaf_kind_of op ≡ some kind)
unfolding lookup_operator
found-leaf name op h = (map_operator-leaf_kind_of op).1 (
  name,
  elim (Option-cases (map_operator name)) [
    | inl e ↦ cc (rw (e, lookup_operator) at h)
    | inr (o, e) ↦ e ∙ rw (e, lookup_operator) at h
  ],
)

-- What `Prepare` checks of a leaf is what the translation has checked.
pub Fits-leaf_operand :
    (op : FilterOp) (v : Operand) (vs : Operands)
    → Fits op v
    → between_values op v ≡ ok vs
    → Fits op (if is_range op then array vs else v)
unfolding between_values
Fits-leaf_operand op v vs (single e s) h = rw e (single e s)
Fits-leaf_operand op v vs (unused e) h = rw (no_range op e) (unused e)
Fits-leaf_operand op v vs (bounds {low} {high} e a b) h = rw e (
    subst (λ x. Fits op (array x))
      (ok-injective (low ▷ high ▷ end) vs (rw (e, between_values) at h)) (bounds e a b))
