-- ===== src/Patch.antt =====
-- The patch engine (services/agentd-py/agentd/patch/engine.py): the operations of a patch, and what
-- the preflight check reports of them. The `reason` of an operation and the texts of messages, which
-- the engine does not read, are left out.
pub mod Simulate
pub mod Preflight
pub mod Apply
pub mod Delete
pub mod Splice
pub mod Agreement
pub mod Rounds
pub mod Passing
pub mod Predict
pub mod Frame
mod Tests
use shadow_forge.Base.{ℕ, String, Bool, List, Option}
use shadow_forge.Text.{Text}

-- Line numbers count from 1 and the model requires 0 < start_line ≤ end_line.
pub record RangeAnchor : Type 0 where
  pub start_line : ℕ
  pub end_line : ℕ

-- The operations of a `PatchDocument`.
pub data PatchOperation : Type 0 where
  replace_range : String → RangeAnchor → Text → PatchOperation
  insert_after_symbol : String → Text → Text → PatchOperation
  create_file : String → Text → PatchOperation
  delete_file : String → PatchOperation

abbrev pub file_of : PatchOperation → String
file_of (replace_range name anchor content) = name
file_of (insert_after_symbol name symbol content) = name
file_of (create_file name content) = name
file_of (delete_file name) = name

pub data PatchFailureCode : Type 0 where
  scope_violation file_missing file_exists range_invalid anchor_missing : PatchFailureCode
  anchor_ambiguous order_conflict python_unsafe_insert path_escape : PatchFailureCode
  policy_violation parser_unavailable apply_error : PatchFailureCode

pub record PatchPreflightIssue : Type 0 where
  pub op_index : Option ℕ
  pub code : PatchFailureCode
  pub name : Option String

-- `success` is `not issues`.
pub record PatchPreflightReport : Type 0 where
  pub success : Bool
  pub issues : List PatchPreflightIssue
