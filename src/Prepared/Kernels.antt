-- ===== src/Prepared/Kernels.antt =====
-- What eval_leaf.go and filter_path_resolve.go offer to a prepared filter: the expansion of a leaf's
-- operand, the values that a path addresses in a document, and the answer of a leaf for one of them.
use cyoda_go_spi.Base.{Bool, List, Option, Bytes}
use cyoda_go_spi.Types.{DataType}
use cyoda_go_spi.Prepared.Metadata.{MetaValue}
use cyoda_go_spi.Path.{PathHop}
use cyoda_go_spi.Operators.{FilterOp}

-- `ExpandLeaf` (`none` is its error), whether the expansion has a compiled pattern, a value that
-- the JSON reader finds, `ResolvePath`, the value that encoding a metadata field as JSON and reading
-- that gives (`none` is the non-existent result), and `EvalLeaf`.
pub record Kernel : Type 1 where
  pub Expansion : Type 0
  pub expand_leaf : FilterOp → Bytes → List Bytes → List DataType → Option Expansion
  pub has_pattern : Expansion → Bool
  pub Stored : Type 0
  pub resolve_path : Bytes → List PathHop → List Stored
  pub json_of_meta : Option MetaValue → Stored
  pub eval_leaf : Expansion → Stored → Bool
