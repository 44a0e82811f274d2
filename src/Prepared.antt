-- ===== src/Prepared.antt =====
-- prepared_filter.go, and of filter_match.go the vocabulary of the metadata: a filter is compiled
-- once and then asked of each entity. What a leaf's operand is expanded to, and what a JSON reader
-- finds in a document, is the `Kernel`'s; an error is a constructor with what it wraps.
pub mod Metadata
pub mod Kernels
pub mod Late
pub mod Sound
pub mod Meaning
mod Tests
use cyoda_go_spi.Base.{
  ℕ, zero, suc, Bool, true, false, not, ◌&&◌, ◌||◌, List, [], ◌∷◌, Option, none, some, Bytes, codes,
  any_of, ◌/◌, if◌then◌else◌, Result, ok, err, ◌>>=◌, require, wrap,
}
use cyoda_go_spi.Types.{DataType}
use cyoda_go_spi.Entities.{EntityMeta}
use cyoda_go_spi.Path.{PathHop, PathError, parse_filter_path}
use cyoda_go_spi.Operators.{
  FilterOp, filter_and, filter_or, filter_not, filter_like, filter_matches_regex, leaf_kind_of,
}
use cyoda_go_spi.Operand.{
  Operand, array, Operands, OperandError, is_range, validate_operand, operand_string,
  values_to_strings,
}
use cyoda_go_spi.OrderClass.{FieldSource, no_source, source_data, source_meta}
use cyoda_go_spi.Translate.{Leaf, Filter, filter, Filters, none_left, ◌◂◌}
use cyoda_go_spi.Prepared.Metadata.{is_recognized_meta_path, meta_value}
use cyoda_go_spi.Prepared.Kernels.{Kernel}

-- What the errors wrap, all of them `ErrUnevaluableLeaf`.
pub data PrepareError : Type 0 where
  not_arity unsupported_operator empty_path unknown_meta_path no_expansion no_pattern : PrepareError
  bad_path : PathError → PrepareError
  bad_operand : OperandError → PrepareError

-- The check of the path of a leaf, and its hops.
unfoldable pub leaf_hops : FieldSource → Bytes → Result PrepareError (List PathHop)
unfolding is_recognized_meta_path
leaf_hops source_data [] = err empty_path
leaf_hops source_data (c ∷ p) = wrap bad_path (parse_filter_path (c ∷ p))
leaf_hops source_meta p = if is_recognized_meta_path p then ok [] else err unknown_meta_path
leaf_hops no_source p = ok []

-- A range is checked on `Values`, any other leaf on `Value`.
unfoldable pub leaf_operand : FilterOp → Leaf → Operand
leaf_operand op l = if is_range op then array l.values else l.value

unfoldable pub check_operand : FilterOp → Operand → Result PrepareError Operand
check_operand op v = elim (validate_operand op v) [ some e ↦ err (bad_operand e) | none ↦ ok v ]

unfoldable pub needs_pattern : FilterOp → Bool
needs_pattern filter_like = true
needs_pattern filter_matches_regex = true
needs_pattern _ = false

module _ (K : Kernel) where
  -- A prepared group holds its children, and a prepared leaf its source, path, hops and expansion.
  mutual
    pub data PreparedNode : Type 0 where
      and_node or_node : PreparedNodes → PreparedNode
      not_node : PreparedNode → PreparedNode
      leaf_node : FilterOp → FieldSource → Bytes → List PathHop → K.Expansion → PreparedNode

    pub data PreparedNodes : Type 0 where
      no_nodes : PreparedNodes
      node_more : PreparedNode → PreparedNodes → PreparedNodes

  -- The check behind the expansion: a pattern operator has a compiled pattern.
  unfoldable pub with_pattern : FilterOp → K.Expansion → Result PrepareError K.Expansion
  unfolding needs_pattern
  with_pattern op exp =
      if needs_pattern op && not (K.has_pattern exp) then err no_pattern else ok exp

  -- `leafKindOf`
  unfoldable pub check_leaf_operator : FilterOp → Result PrepareError FilterOp
  check_leaf_operator op = elim (leaf_kind_of op) [
    | none ↦ err unsupported_operator
    | some k ↦ ok op
  ]

  unfoldable pub prepare_leaf : FilterOp → Leaf → Result PrepareError PreparedNode
  unfolding check_leaf_operator leaf_hops check_operand leaf_operand with_pattern
  prepare_leaf given l = do
    op ← check_leaf_operator given
    hops ← leaf_hops l.source l.path
    v ← check_operand op (leaf_operand op l)
    exp ←
        require no_expansion
          (K.expand_leaf op (operand_string l.value) (values_to_strings l.values) l.declared)
    checked ← with_pattern op exp
    ok (leaf_node op l.source l.path hops checked)

  unfoldable mutual
    unfolding prepare_leaf

    pub prepare_node : Filter → Result PrepareError PreparedNode
    prepare_node (filter none l fs) = err unsupported_operator
    prepare_node (filter (some filter_and) l fs) = prepare_nodes fs >>= λ ns. ok (and_node ns)
    prepare_node (filter (some filter_or) l fs) = prepare_nodes fs >>= λ ns. ok (or_node ns)
    prepare_node (filter (some filter_not) l (f ◂ none_left)) =
        prepare_node f >>= λ n. ok (not_node n)
    prepare_node (filter (some filter_not) l fs) = err not_arity
    prepare_node (filter (some op) l fs) = prepare_leaf op l

    -- The loop over the children.
    pub prepare_nodes : Filters → Result PrepareError PreparedNodes
    prepare_nodes none_left = ok no_nodes
    prepare_nodes (f ◂ fs) = prepare_node f >>= λ n. prepare_nodes fs >>= λ ns. ok (node_more n ns)

  -- `PreparedFilter`: without a root it matches everything.
  abbrev pub PreparedFilter : Type 0
  PreparedFilter = Option PreparedNode

  unfoldable pub prepare : Filter → Result PrepareError PreparedFilter
  unfolding prepare_node
  prepare (filter none l fs) = ok none
  prepare (filter (some op) l fs) = prepare_node (filter (some op) l fs) >>= λ n. ok (some n)

  -- `storedAll`: a metadata leaf has the one value of its field.
  unfoldable pub stored_all :
      FieldSource → Bytes → List PathHop → Bytes → EntityMeta → List K.Stored
  stored_all source_meta path hops doc meta = K.json_of_meta (meta_value path meta) ∷ []
  stored_all _ path hops doc meta = K.resolve_path doc hops

  unfoldable mutual
    unfolding stored_all

    pub match : PreparedNode → Bytes → EntityMeta → Bool
    match (and_node ns) doc meta = match_all ns doc meta
    match (or_node ns) doc meta = match_some ns doc meta
    match (not_node n) doc meta = not (match n doc meta)
    match (leaf_node op source path hops exp) doc meta =
        any_of (K.eval_leaf exp) (stored_all source path hops doc meta)

    -- The loop of AND, which ends at the first child that does not match.
    pub match_all : PreparedNodes → Bytes → EntityMeta → Bool
    match_all no_nodes doc meta = true
    match_all (node_more n ns) doc meta = match n doc meta && match_all ns doc meta

    -- The loop of OR, which ends at the first child that matches.
    pub match_some : PreparedNodes → Bytes → EntityMeta → Bool
    match_some no_nodes doc meta = false
    match_some (node_more n ns) doc meta = match n doc meta || match_some ns doc meta

  -- `PreparedFilter.Match`
  unfoldable pub match_filter : PreparedFilter → Bytes → EntityMeta → Bool
  unfolding match
  match_filter none doc meta = true
  match_filter (some n) doc meta = match n doc meta
