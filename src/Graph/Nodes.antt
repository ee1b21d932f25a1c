-- ===== src/Graph/Nodes.antt =====
-- The node that is shown for an id, and the edges of a node.
use shadow_forge.Base.{
  ◌≡◌, refl, ap, ◌∙◌, ◌⊎◌, String, Bool, true, false, List, [], ◌∷◌, Option, none, some, arith,
  if◌then◌else◌, str_eq, eq_iff,
}
use shadow_forge.Text.{Text}
use shadow_forge.Graph.{
  Node, Index, find_node, GraphNode, decode_node, is_external, shown_node, entries_of,
}

-- The edge is one of the edges.
abbrev pub IsEdge : String → String → List (String × String) → Type 0
IsEdge target kind [] = ⊥
IsEdge target kind ((id, k) ∷ edges) = ((id ≡ target) × (k ≡ kind)) ⊎ IsEdge target kind edges

-- An edge of the kind, in either direction.
abbrev pub IsAdjacent : Index → String → String → String → Type 0
IsAdjacent index id target kind =
    IsEdge target kind (entries_of id index.outbound)
    ⊎ IsEdge target kind (entries_of id index.inbound)

find_node-id :
    (id : String) (nodes : List Node) (node : Node) → find_node id nodes ≡ some node → node.id ≡ id
unfolding find_node
find_node-id id [] node h = cc
find_node-id id (first ∷ nodes) node h = from (find_node id nodes) (find_node-id id nodes) refl h
  where
    from :
        (o : Option Node)
        → ((later : Node) → find_node id nodes ≡ some later → later.id ≡ id)
        → find_node id nodes ≡ o
        → (elim o [
          | some later ↦ some later
          | none ↦ if str_eq first.id id then some first else none
        ])
          ≡ some node
        → node.id ≡ id
    from (some later) ih e h' = ih node (e ∙ h')
    from none ih e h' = ground (arith, eq_iff first.id id, h')

module _ (workspace_relative : String → Option Text) (index : Index) where
  decode_node-id :
      (found : Node) (node : GraphNode)
      → decode_node workspace_relative found ≡ some node
      → node.raw_id ≡ found.id
  unfolding decode_node
  decode_node-id found node h = ground (arith, h)

  pub shown_node-id :
      (id : String) (node : GraphNode)
      → shown_node workspace_relative index id ≡ some (some node)
      → node.raw_id ≡ id
  unfolding shown_node
  shown_node-id id node h = from (find_node id index.nodes_by_id) refl h
    where
      from :
          (o : Option Node)
          → find_node id index.nodes_by_id ≡ o
          → (elim o [
            | none ↦ none
            | some found ↦ some (
                if is_external workspace_relative id
                then none
                else decode_node workspace_relative found)
          ])
            ≡ some (some node)
          → node.raw_id ≡ id
      from none e h' = cc
      from (some found) e h' =
          of_shown (is_external workspace_relative id)
            (ap (λ o. elim o [ none ↦ none | some inner ↦ inner ]) h')
        where
          of_shown :
              (external : Bool)
              → (if external then none else decode_node workspace_relative found) ≡ some node
              → node.raw_id ≡ id
          of_shown true k = cc
          of_shown false k = decode_node-id found node k ∙ find_node-id id index.nodes_by_id found e
