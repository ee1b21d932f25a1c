-- ===== src/Graph/Tests.antt =====
-- Walks over a graph of three nodes with a cycle.
use shadow_forge.Base.{
  ◌≡◌, refl, ◌⊎◌, inl, inr, String, Bool, true, false, List, [], ◌∷◌, Option, none, some, has_name,
  arith, lookup, insert, ◌<◌, map,
}
use shadow_forge.Text.{Text, codes, strip, starts_with}
use shadow_forge.Graph.{
  Node, Edge, Index, GraphNode, WalkState, load, shown_node, walk, walk_from, resolve_roots,
}
use shadow_forge.Graph.Total.{queue_cost, cost, walk-total}
use shadow_forge.Graph.Sound.{IsSound, walk_from-IsSound, IsConnected, at_root, along}
use shadow_forge.Graph.Extends.{is_listed}
use shadow_forge.Graph.Complete.{walk_from_complete}

abbrev inside : String → Option Text
inside path = some (codes path)

abbrev node_of : String → Node
node_of id = record { id = id; path = some "a.py"; name = id; kind = "Function"; line = some 3 }

abbrev edge_of : String → String → Option Edge
edge_of source target = some (record { source = source; target = target; kind = "Calls" })

-- f calls g, g calls h, and h calls f.
abbrev graph : Index
graph =
    load (node_of "f" ∷ node_of "g" ∷ node_of "h" ∷ [])
      (edge_of "f" "g" ∷ none ∷ edge_of "g" "h" ∷ edge_of "h" "f" ∷ [])

abbrev calls_only : List String
calls_only = "Calls" ∷ []

found_near :
    (last : WalkState) × (walk_from inside graph calls_only 1 20 30 ("f" ∷ []) ≡ some (last, false))
unfolding walk_from load starts_with lookup insert
found_near = (_, refl)

-- Three levels of a triangle.
cost_small : queue_cost graph 3 (("f", 0) ∷ []) < 100
unfolding cost load lookup insert
cost_small = omega arith

walk-total_example :
    (r : WalkState × Bool) × (walk inside graph calls_only 3 20 100
        (("f", 0) ∷ [])
        (record { seen = []; ordered = [] })
      ≡ some r)
walk-total_example =
    walk-total inside graph calls_only 3 20 100 (("f", 0) ∷ []) (record { seen = []; ordered = [] })
      cost_small

walk_from-IsSound_example : IsSound inside graph calls_only 1 20 ("f" ∷ []) found_near.0
walk_from-IsSound_example =
    walk_from-IsSound inside graph calls_only 1 20 ("f" ∷ []) 30 (found_near.0, false) (omega arith)
      found_near.1

h-IsConnected : IsConnected graph calls_only ("f" ∷ []) "h" 1
unfolding load lookup insert
h-IsConnected = along "Calls" (at_root {id = "f"} refl) refl (inr (inl (refl, refl)))

h_shown : (node : GraphNode) × (shown_node inside graph "h" ≡ some (some node))
unfolding load shown_node starts_with
h_shown = (_, refl)

walk_from_complete_example :
    (has_name "h" ("f" ∷ []) ≡ true) ⊎ (is_listed "h" found_near.0.ordered ≡ true)
walk_from_complete_example =
    walk_from_complete inside graph calls_only 1 20 ("f" ∷ []) 30 found_near.0 "h" 1 h_shown.0
      found_near.1 h-IsConnected (omega arith) h_shown.1

-- A symbol and its file.
roots_found : map (λ n. n.id) (resolve_roots inside (codes "./a.py:g") graph.nodes_by_id) ≡ "g" ∷ []
unfolding resolve_roots load strip lookup insert starts_with
roots_found = refl

-- The leading dot of a hidden directory is stripped with the rest.
hidden_not_found :
    resolve_roots inside
      (codes ".ci/a.py")
      (record { id = "f"; path = some ".ci/a.py"; name = "f"; kind = "Function"; line = none } ∷ [])
    ≡ []
unfolding resolve_roots load strip lookup insert starts_with
hidden_not_found = refl
