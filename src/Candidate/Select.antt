-- ===== src/Candidate/Select.antt =====
-- The span of the node that a selector names (patch/engine.py, `_resolve_unique_selector_span`,
-- `_python_symbol_spans`, `_treesitter_symbol_spans`, `_find_symbol_offsets`).
use shadow_forge.Base.{
  ℕ, zero, suc, ◌+◌, ◌-◌, Bool, ◌&&◌, List, [], ◌∷◌, ◌++◌, Option, none, some, ltb, ◌==◌,
  if◌then◌else◌, length, take, drop, get_elem?, map, Result, ok, err, ◌>>=◌,
}
use shadow_forge.Text.{Text, codes, newline, contains, starts_with, strip, text_eq}
use shadow_forge.Candidate.{
  Language, python, Match, exact, contains_match, NodeSelector, SelectorError, ambiguous,
  unavailable, SyntaxNode, node, SyntaxNodes, no_more, child, Parsers,
}

abbrev pub Span : Type 0
Span = ℕ × ℕ

-- `source[start:end]`
abbrev pub slice : ℕ → ℕ → Text → Text
slice i j t = take (j - i) (drop i t)

-- The indices behind the newlines.
unfoldable pub starts_from : ℕ → Text → List ℕ
starts_from i [] = []
starts_from i (c ∷ cs) =
    let rest = starts_from (i + 1) cs in if c == newline then (i + 1) ∷ rest else rest

unfoldable pub line_start_offsets : Text → List ℕ
unfolding starts_from
line_start_offsets source = 0 ∷ starts_from 0 source

-- `max(0, min(lineno - 1, len(line_starts) - 1))`, and `line_starts` is never empty.
unfoldable pub offset : List ℕ → ℕ → ℕ → ℕ
offset line_starts lineno col =
    let last = length line_starts - 1 in
    let index = if ltb last (lineno - 1) then last else lineno - 1 in
    elim (get_elem? line_starts index) [ none ↦ col | some start ↦ start + col ]

unfoldable pub python_symbol_spans :
    Parsers → Text → Text → Match → Result SelectorError (List Span)
unfolding line_start_offsets offset
python_symbol_spans parsers source symbol kind =
    let line_starts = line_start_offsets source in
    parsers.python_declaration_matches source symbol kind >>= λ found. ok (
      map
        (λ item. (
          offset line_starts item.start_line item.start_col,
          offset line_starts item.end_line item.end_col,
        ))
        found)

mutual
  -- A named node whose text is the symbol; behind a match no child is searched.
  pub find_exact_symbol_matches : SyntaxNode → Text → Text → List Span
  find_exact_symbol_matches (node is_named i j children) symbol source =
      if is_named && text_eq (strip (slice i j source)) symbol
      then (i, j) ∷ []
      else exact_in_children children symbol source

  pub exact_in_children : SyntaxNodes → Text → Text → List Span
  exact_in_children no_more symbol source = []
  exact_in_children (child n ns) symbol source =
      find_exact_symbol_matches n symbol source ++ exact_in_children ns symbol source

mutual
  pub find_contains_symbol_matches : SyntaxNode → Text → Text → List Span
  find_contains_symbol_matches (node is_named i j children) symbol source =
      (if is_named && contains symbol (slice i j source) then (i, j) ∷ [] else [])
      ++ contains_in_children children symbol source

  pub contains_in_children : SyntaxNodes → Text → Text → List Span
  contains_in_children no_more symbol source = []
  contains_in_children (child n ns) symbol source =
      find_contains_symbol_matches n symbol source ++ contains_in_children ns symbol source

unfoldable pub treesitter_symbol_spans :
    Parsers → Language → Text → Text → Match → Result SelectorError (List Span)
treesitter_symbol_spans parsers language source symbol exact =
    parsers.parse_tree language source >>= λ root. ok (find_exact_symbol_matches root symbol source)
treesitter_symbol_spans parsers language source symbol contains_match =
    parsers.parse_tree language source >>= λ root.
    ok (find_contains_symbol_matches root symbol source)

-- Without a parser the error is raised again if the source declares the symbol, and otherwise no
-- span is found.
abbrev without_parser : Bool → Result SelectorError (List Span) → Result SelectorError (List Span)
without_parser declared (ok spans) = ok spans
without_parser declared (err unavailable) = if declared then err unavailable else ok []
without_parser declared (err e) = err e

unfoldable pub symbol_spans :
    Parsers → Language → Text → NodeSelector → Result SelectorError (List Span)
unfolding python_symbol_spans treesitter_symbol_spans
symbol_spans parsers python source selector =
    python_symbol_spans parsers source selector.value selector.match_kind
symbol_spans parsers language source selector =
    without_parser (parsers.declares language source selector.value)
      (treesitter_symbol_spans parsers language source selector.value selector.match_kind)

abbrev pub unique_span : List Span → Result SelectorError (Option Span)
unique_span [] = ok none
unique_span (s ∷ []) = ok (some s)
unique_span (s ∷ t ∷ ss) = err ambiguous

unfoldable pub resolve_unique_selector_span :
    Parsers → Language → Text → NodeSelector → Result SelectorError (Option Span)
unfolding symbol_spans
resolve_unique_selector_span parsers language source selector =
    symbol_spans parsers language source selector >>= unique_span

-- The places of a text, without overlap. The first number is how many characters of the last match
-- are still to be passed over, the second is the index.
unfoldable pub places_from : Text → ℕ → ℕ → Text → List Span
unfolding starts_with
places_from sub skip i [] = []
places_from sub (suc k) i (c ∷ cs) = places_from sub k (i + 1) cs
places_from sub zero i (c ∷ cs) =
    let found = starts_with sub (c ∷ cs) in
    let rest = places_from sub (if found then length sub - 1 else 0) (i + 1) cs in
    if found then (i, i + length sub) ∷ rest else rest

-- In the source the pattern for `exact` is `rf"\\b{re.escape(symbol)}\\b"`: in a raw literal the two
-- backslashes match one backslash, so the symbol is searched between two texts `\b`.
unfoldable pub find_symbol_offsets : Text → Text → Match → List Span
unfolding places_from
find_symbol_offsets source symbol contains_match = places_from symbol 0 0 source
find_symbol_offsets source symbol exact =
    places_from (codes "\\b" ++ (symbol ++ codes "\\b")) 0 0 source
