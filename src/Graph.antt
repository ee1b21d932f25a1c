-- ===== src/Graph.antt =====
-- The walker over the symbol graph (services/agentd-py/agentd/retrieval/graph_walker.py): the indexes
-- that are made of a snapshot, the roots of a query, and the walk from a symbol.
pub mod Total
pub mod Nodes
pub mod Sound
pub mod Extends
pub mod Covers
pub mod Leads
pub mod Complete
mod Tests
use Prim.Native.Nat.{min, max}
use shadow_forge.Base.{
  ℕ, zero, suc, ◌+◌, ◌-◌, String, Bool, true, false, not, ◌&&◌, ◌||◌, List, [], ◌∷◌, ◌++◌, Option,
  none, some, ltb, leb, ◌==◌, if◌then◌else◌, length, keep, map, any, has_name, str_eq, lookup,
  insert,
}
use shadow_forge.Text.{Text, codes, strip, contains, starts_with, text_eq}

-- A node of the snapshot with the fields that are read. A path or a line of another type is `none`.
pub record Node : Type 0 where
  pub id : String
  pub path : Option String
  pub name : String
  pub kind : String
  pub line : Option ℕ

pub record Edge : Type 0 where
  pub source : String
  pub target : String
  pub kind : String

pub data Direction : Type 0 where
  outward inward : Direction

-- The neighbours of a node with the kinds of the edges.
abbrev pub Adjacency : Type 0
Adjacency = List (String × List (String × String))

-- `adjacency.setdefault(key, []).append(entry)`
pub append_to : String → String × String → Adjacency → Adjacency
append_to key entry adjacency = elim (lookup key adjacency) [
  | none ↦ insert key (entry ∷ []) adjacency
  | some entries ↦ insert key (entries ++ entry ∷ []) adjacency
]

-- `adjacency.get(key, ())`
abbrev pub entries_of : String → Adjacency → List (String × String)
entries_of key adjacency = elim (lookup key adjacency) [ none ↦ [] | some entries ↦ entries ]

pub record Index : Type 0 where
  pub nodes_by_id : List Node
  pub outbound : Adjacency
  pub inbound : Adjacency

-- The edges in order; one with a field that is no string is `none` and is passed over.
index_edges : List (Option Edge) → Adjacency → Adjacency → Adjacency × Adjacency
unfolding append_to
index_edges [] outbound inbound = (outbound, inbound)
index_edges (none ∷ edges) outbound inbound = index_edges edges outbound inbound
index_edges (some edge ∷ edges) outbound inbound =
    index_edges edges (append_to edge.source (edge.target, edge.kind) outbound)
      (append_to edge.target (edge.source, edge.kind) inbound)

unfoldable pub load : List Node → List (Option Edge) → Index
unfolding index_edges
load nodes edges =
    let (outbound, inbound) = index_edges edges [] [] in
    record { nodes_by_id = nodes; outbound = outbound; inbound = inbound }

-- `nodes_by_id.get(id)`: of two nodes with one id the later one stays.
pub find_node : String → List Node → Option Node
find_node id [] = none
find_node id (node ∷ nodes) = elim (find_node id nodes) [
  | some later ↦ some later
  | none ↦ if str_eq node.id id then some node else none
]

pub record GraphNode : Type 0 where
  pub file : Text
  pub symbol : String
  pub kind : String
  pub line : ℕ
  pub raw_id : String

pub record GraphNeighbor : Type 0 where
  pub node : GraphNode
  pub edge_kind : String
  pub direction : Direction
  pub distance : ℕ

pub record WalkState : Type 0 where
  pub seen : List String
  pub ordered : List GraphNeighbor

-- `path` relative to the workspace, if it lies in it.
module _ (workspace_relative : String → Option Text) where
  pub decode_node : Node → Option GraphNode
  decode_node node = elim node.path [
    | none ↦ none
    | some path ↦ elim (workspace_relative path) [
      | none ↦ none
      | some file ↦ some (record {
        file = file;
        symbol = node.name;
        kind = node.kind;
        line = elim node.line [ none ↦ 1 | some line ↦ line ];
        raw_id = node.id;
      })
    ]
  ]

  abbrev pub is_external : String → Bool
  is_external id = starts_with (codes "external:") (codes id)

  -- What a neighbour that is not seen yet stands for: none if there is no node of this id, and some
  -- none if it is not to be shown.
  pub shown_node : Index → String → Option (Option GraphNode)
  unfolding decode_node find_node starts_with
  shown_node index id = elim (find_node id index.nodes_by_id) [
    | none ↦ none
    | some node ↦ some (if is_external id then none else decode_node node)
  ]

  abbrev pub mark_seen : String → WalkState → WalkState
  mark_seen id st = record st { seen = id ∷ st.seen }

  -- The flag is false when the limit is hit.
  emit_shown :
      Option (Option GraphNode) → String → String → Direction → ℕ → ℕ → WalkState → WalkState × Bool
  emit_shown none id kind direction distance limit st = (st, true)
  emit_shown (some none) id kind direction distance limit st = (mark_seen id st, true)
  emit_shown (some (some node)) id kind direction distance limit st =
      let neighbor : GraphNeighbor = record {
        node = node;
        edge_kind = kind;
        direction = direction;
        distance = distance;
      } in
      let ordered = st.ordered ++ neighbor ∷ [] in
      (record st { seen = id ∷ st.seen; ordered = ordered }, ltb (length ordered) limit)

  pub emit_neighbor : Index → String → String → Direction → ℕ → ℕ → WalkState → WalkState × Bool
  unfolding emit_shown shown_node
  emit_neighbor index id kind direction distance limit st =
      if has_name id st.seen
      then (st, true)
      else emit_shown (shown_node index id) id kind direction distance limit st

  module _ (index : Index) (kinds : List String) (depth limit : ℕ) where
    -- What the loop over the edges of one node leaves: the state, what is to be queued, and whether
    -- the limit was hit.
    pub record Expansion : Type 0 where
      pub state : WalkState
      pub queued : List (String × ℕ)
      pub stopped : Bool

    abbrev pub enqueue : String → ℕ → Expansion → Expansion
    enqueue id distance e = record e {
      queued = if ltb distance depth then (id, distance) ∷ e.queued else e.queued;
    }

    abbrev pub expand_on : (WalkState → Expansion) → String → ℕ → WalkState × Bool → Expansion
    expand_on rest id distance (st, true) = enqueue id distance (rest st)
    expand_on rest id distance (st, false) = record { state = st; queued = []; stopped = true }

    pub expand : Direction → ℕ → List (String × String) → WalkState → Expansion
    unfolding emit_neighbor
    expand direction distance [] st = record { state = st; queued = []; stopped = false }
    expand direction distance ((id, kind) ∷ edges) st =
        let rest = expand direction distance edges st in
        if has_name kind kinds
        then expand_on (expand direction distance edges) id distance
            (emit_neighbor index id kind direction distance limit st)
        else rest

    abbrev pub both : Expansion → (WalkState → Expansion) → Expansion
    both e further =
        let e' = further e.state in
        if e.stopped then e else record e' { queued = e.queued ++ e'.queued }

    -- The edges that leave a node, and then those that enter it.
    unfoldable pub expand_node : String → ℕ → WalkState → Expansion
    unfolding expand
    expand_node id distance st =
        both (expand outward distance (entries_of id index.outbound) st)
          (expand inward distance (entries_of id index.inbound))

    -- `while queue`. None stands for a lack of fuel; the flag tells that the walk was cut.
    unfoldable pub walk : ℕ → List (String × ℕ) → WalkState → Option (WalkState × Bool)
    unfolding expand_node
    walk zero queue st = none
    walk (suc fuel) [] st = some (st, false)
    walk (suc fuel) ((id, distance) ∷ queue) st =
        let skipped = walk fuel queue st in
        let e = expand_node id (suc distance) st in
        let further = walk fuel (queue ++ e.queued) e.state in
        if leb depth distance then skipped else if e.stopped then some (e.state, true) else further

    abbrev pub start_queue : List String → List (String × ℕ)
    start_queue roots = map (λ id. (id, 0)) roots

    unfoldable pub walk_from : ℕ → List String → Option (WalkState × Bool)
    unfolding walk
    walk_from fuel roots = walk fuel (start_queue roots) (record { seen = roots; ordered = [] })

unfoldable pub clamp : ℕ → ℕ → ℕ
clamp high n = max 1 (min n high)

-- `max(1, min(depth, _MAX_DEPTH))` and the same for the limit.
abbrev pub clamp_depth : ℕ → ℕ
clamp_depth depth = clamp 3 depth

abbrev pub clamp_limit : ℕ → ℕ
clamp_limit limit = clamp 60 limit

-- `node.rsplit(":", 1)`: the part behind the last colon is none if there is no colon.
pub split_last_colon : Text → Text × Option Text
unfolding contains
split_last_colon [] = ([], none)
split_last_colon (c ∷ cs) =
    let (front, behind) = split_last_colon cs in
    elim behind [
      | some symbol ↦ (c ∷ front, some symbol)
      | none ↦ if c == b':' then ([], some cs) else (c ∷ front, none)
    ]

-- `lstrip("./")`: every leading dot and slash.
pub lstrip_dots : Text → Text
lstrip_dots [] = []
lstrip_dots (c ∷ cs) =
    let rest = lstrip_dots cs in if (c == b'.') || (c == b'/') then rest else c ∷ cs

-- The nodes as the dictionary by their ids holds them.
by_id : List Node → List (String × Node) → List (String × Node)
by_id [] held = held
by_id (node ∷ nodes) held = by_id nodes (insert node.id node held)

module _ (workspace_relative : String → Option Text) where
  is_in_file : Text → Node → Bool
  is_in_file file node = elim node.path [
    | none ↦ false
    | some path ↦ elim (workspace_relative path) [ none ↦ false | some found ↦ text_eq found file ]
  ]

  nodes_in_file : Text → List Node → List Node
  unfolding is_in_file by_id
  nodes_in_file file nodes = keep (is_in_file file) (map (λ entry. entry.1) (by_id nodes []))

  -- All nodes of a file, or those of the symbol's name; an empty symbol is none.
  unfoldable pub resolve_roots : Text → List Node → List Node
  unfolding split_last_colon lstrip_dots nodes_in_file
  resolve_roots node nodes =
      let (front, behind) = split_last_colon node in
      let found = nodes_in_file (lstrip_dots (strip front)) nodes in
      elim behind [
        | none ↦ found
        | some symbol ↦
            if text_eq symbol []
            then found
            else keep (λ n. text_eq (codes n.name) (strip symbol)) found
      ]

  -- The walk of a query for a symbol, before its rows are sorted.
  pub query_symbol_seed : Index → List String → ℕ → ℕ → ℕ → Text → Option (WalkState × Bool)
  unfolding resolve_roots walk_from
  query_symbol_seed index kinds depth limit fuel node =
      walk_from workspace_relative index kinds (clamp_depth depth) (clamp_limit limit) fuel
        (map (λ n. n.id) (resolve_roots node index.nodes_by_id))
