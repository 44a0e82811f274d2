-- ===== src/Lib.antt =====
-- Verification of the core logic of cyoda-go-spi, the interface between the Cyoda engine and its
-- storage plugins. Besides interfaces the library holds the rules that every plugin shares: the
-- types of a field, the paths and operators of a filter, patterns, and the merge of committed and
-- buffered entities.
--
-- The parts, and the files that they model (paths from the repository's root):
--   Types      datatype.go and numeric.go: the enumeration of types, the widening lattice
--              (`IsAssignableTo`), `CollapseNumeric`, and `TypeSet` with Add, Union and Equal. A set
--              is its sorted list. A panic of `CollapseNumeric` is `none`.
--   Like       like_pattern.go: `parseLikePatternImpl` and the method `matches`.
--   Path       filter_path.go: `ParseFilterPath` with its scan, `IsArrayIndex`, and from
--              condition_filter.go `isPathNameByte` and `renderPathHops`.
--   Operators  filter.go: `FilterOp`; condition_filter.go: `MapOperator`, `LookupOperator`,
--              `canonicalOperatorNames`, `groupOperatorToFilterOp`; eval_leaf.go: `leafKindOf` and
--              `cmpResult`; temporal.go: `CompareTemporal`; temporal_subtype.go:
--              `mutateDownscaleOp`.
--   Operand    operand.go: `ValidateOperand`; filter_match.go: `OperandString`, `valuesToStrings`. A Go
--              value of type `any` is one of the constructors that the shapes tell apart.
--   OrderClass order_class.go: `ClassifyTypesFold`, `ClassifyType` and the vocabulary of the metadata;
--              `OrderKind` of searcher.go, `FieldSource` of filter.go.
--   Conditions predicate/condition.go; condition_filter.go: `DesugarCondition` with
--              `desugarArrayElementPath`. `Conditions.Meaning` says what a condition means.
--   WirePath   condition_filter.go: `stripDollarDot`, `NormalisePath`, `foldSubscriptWildcards`.
--   Translate  condition_filter.go: `ConditionToFilter`, `ValidateConditionOperators`; filter.go:
--              `Filter`; field_descriptor.go. A Filter is its operator, the fields of a leaf as a
--              record, and its children.
--   Prepared   prepared_filter.go: `Prepare` and `Match`; filter_match.go: `extractFilterMetaValue`,
--              `isRecognizedMetaPath`, `timeToMicro`, and the guards of `metaGjsonResult`. A prepared
--              node is a group or a leaf, each with the fields that it uses.
--   Decimal    decimal.go: `Decimal` with `ParseDecimal`, `Canonical`, `StripTrailingZeros`,
--              `Precision`, `SetScale`, `roundToScale`, `roundToPrecision`, `digitCountBounds` and
--              `Cmp`. A coefficient is an integer, and a nil coefficient reads as zero. A scale is an
--              int32: where the source computes one that could leave that width, it wraps round.
--   Numeric    numeric.go: `ClassifyInteger`, `ClassifyDecimal`; numeric_bucket.go:
--              `ExpandNumericOperand`; numeric_admit.go: `AdmitsNumeric`; eval_leaf.go: what
--              `expandCompare`, `evalCompare`, `evalBetween` and `EvalLeaf` do with a stored number.
--   Merge      merge_ordered.go: `MergeOrdered`, a function that is called again and again. Its
--              closed-over variables are the record `Merger` and one call is `pull`.
--   Bounded    merge_bounded.go: `MergeBounded`. The loop runs on the number of entities that it may
--              still append, by `need`: one more than the limit, as an int of 64 bits that wraps
--              round, and at least one append. `LessByOrder` is its parameter `less`.
--   Claims     scheduled_task_helpers.go: `SelectClaims`, the choice of the tasks of one claim. The
--              rounds run on one more than the number of candidates, since a round with progress
--              takes a task from its queue. Go's sort leaves the order of two tasks with the same
--              time, tenant and id open; the model keeps their order.
--   Arm        persistence.go: `ReconcileRequest`; scheduled_task_helpers.go: `ValidateArm`.
--   Entities   types.go and context.go: the records of an entity.
--   Base       what they share: Boolean tests and lists over the native numbers, signed integers,
--              UTF-8 with what utf8.DecodeRuneInString returns, decimal digits, results.
--
-- How they interact: a condition names its field by a Path, its comparison by one of the
-- Operators, and, for LIKE, its operand by a pattern; the declared Types of the field decide how
-- the operand is read: Numeric splits a numeric operand over them with the order of Decimal.
-- Conditions are freed of array clauses, Translate turns them into filters with WirePath, Operand
-- and OrderClass, and Prepared compiles a filter and asks it of each entity. The entities that a
-- search finds are merged with a transaction's own writes by Merge, and up to a limit by Bounded.
--
-- A text is the list of its bytes. A function's names follow the source in snake case; a helper
-- that is part of a function is named for its part, and its comment says which.
--
-- Loops. A loop over a text or a list is structural recursion where the source takes one element
-- at a time. The others run on fuel: the scan of a path and of a pattern on the length of the
-- text, and the matcher of a pattern on (text + 1) * (tokens + 1) + 1 rounds, since each retry
-- moves the saved position forward and between two retries the tokens only shrink. The bits and
-- the digits of a number are counted on the number itself, which shrinks with each one.
-- `out_of_fuel` and `none` stand for a run that needs more. A merge is called once for each
-- entity and once more.
--
-- The check of a condition's operators counts the levels that are left, 256 at first, where the
-- source counts the depth up to `MaxConditionDepth`.
--
-- Parameters. What a prepared filter takes from the evaluation of leaves and from the JSON reader
-- is the record `Kernel`: `ExpandLeaf`, `EvalLeaf`, `ResolvePath` and the JSON form of a metadata
-- value. The map of a model's fields is the caller's function. The committed stream of a merge is
-- the caller's function: it is given by the rows that it answers with and by how it ends. The
-- order and the set of deleted ids are the caller's too.
--
-- Panics. `betweenValues` asserts an array: `bounds_no_array` stands for its panic.
-- `CollapseNumeric` of no type is `none`. Rescalings that the decimals expect to succeed keep
-- their operand where the source would panic (`must`). `Canonical` panics on the least scale,
-- which is `none`.
--
-- Not modelled: the interfaces of the stores, the plugin registry and the contexts, which hold no
-- logic of their own; the conformance harness in spitest; strictjson, which wraps the errors of
-- the JSON package; resolution of paths in documents, which rests on the JSON reader. Of the
-- remaining logic temporal subtypes, the leaves that are not numbers, the check of patterns, the
-- texts of diagnostics, the wire form of a model's schema, unique signatures and the order of
-- entities have no model here.
pub mod Base
pub mod Types
pub mod Like
pub mod Path
pub mod Entities
pub mod Merge
pub mod Bounded
pub mod Operators
pub mod Operand
pub mod OrderClass
pub mod Conditions
pub mod WirePath
pub mod Translate
pub mod Prepared
pub mod Claims
pub mod Arm
pub mod Decimal
pub mod Numeric
