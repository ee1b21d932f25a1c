-- ===== src/Candidate.antt =====
-- The patch engine's second format (services/agentd-py/agentd/patch/engine.py): candidates, whose
-- operations also replace texts, apply diffs and edit syntax nodes.
pub mod Select
pub mod Simulate
pub mod Preflight
pub mod Apply
pub mod Selectors
pub mod Rounds
pub mod Edits
pub mod Mirrors
mod Tests
use shadow_forge.Base.{ℕ, String, Bool, List, Result}
use shadow_forge.Text.{Text}
use shadow_forge.Diff.{UnifiedDiff}
use shadow_forge.Patch.{RangeAnchor}

pub data Language : Type 0 where
  python typescript rust : Language

pub data Match : Type 0 where
  exact contains_match : Match

-- The `kind` of a selector is always `symbol`.
pub record NodeSelector : Type 0 where
  pub value : Text
  pub match_kind : Match

-- The operations of a `PatchCandidateV2`.
pub data PatchOperationV2 : Type 0 where
  replace_node insert_after_node : String → Language → NodeSelector → Text → PatchOperationV2
  search_replace : String → Text → Text → PatchOperationV2
  apply_diff : String → Text → PatchOperationV2
  replace_lines : String → RangeAnchor → Text → PatchOperationV2
  create_text : String → Text → PatchOperationV2
  delete_path : String → PatchOperationV2

abbrev pub file_of : PatchOperationV2 → String
file_of (replace_node name language selector content) = name
file_of (insert_after_node name language selector content) = name
file_of (search_replace name search replace) = name
file_of (apply_diff name diff) = name
file_of (replace_lines name anchor content) = name
file_of (create_text name content) = name
file_of (delete_path name) = name

-- What stops a selector: `SelectorAmbiguousError`, `ParserUnavailableError`, or a `RuntimeError`.
pub data SelectorError : Type 0 where
  ambiguous unavailable failed : SelectorError

-- A declaration that libcst finds: lines count from 1 and columns from 0.
pub record PythonDeclMatch : Type 0 where
  pub start_line : ℕ
  pub start_col : ℕ
  pub end_line : ℕ
  pub end_col : ℕ

-- A node of a tree-sitter tree, which holds a list of nodes.
mutual
  pub data SyntaxNode : Type 0 where
    node : Bool → ℕ → ℕ → SyntaxNodes → SyntaxNode

  pub data SyntaxNodes : Type 0 where
    no_more : SyntaxNodes
    child : SyntaxNode → SyntaxNodes → SyntaxNodes

-- The third-party parsers, and the parts of the standard library that are given: the declarations
-- that libcst finds, the tree of tree-sitter's parser for a language (`unavailable` without the
-- package), the search for the pattern of a declaration, libcst's rewriting, and `unified_diff`.
pub record Parsers : Type 0 where
  pub python_declaration_matches : Text → Text → Match → Result SelectorError (List PythonDeclMatch)
  pub parse_tree : Language → Text → Result SelectorError SyntaxNode
  pub declares : Language → Text → Text → Bool
  pub apply_python_replace_node : Text → NodeSelector → Text → Result SelectorError Text
  pub apply_python_insert_after_node : Text → NodeSelector → Text → Result SelectorError Text
  pub unified_diff : UnifiedDiff
