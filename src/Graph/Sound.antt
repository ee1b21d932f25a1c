-- ===== src/Graph/Sound.antt =====
-- What the walk shows is connected to the roots.
use mathlib.Core.Path.{subst}
use shadow_forge.Base.{
  ℕ, zero, suc, ◌≤◌, ◌<◌, ◌≡◌, refl, inl, inr, String, Bool, true, false, not, List, [], ◌∷◌, ◌++◌,
  Option, none, some, arith, if◌then◌else◌, ltb, leb, Bool-cases, length, length-append, All,
  All-append, has_name, eq_iff,
}
use shadow_forge.Text.{Text}
use shadow_forge.Graph.{
  Index, GraphNode, GraphNeighbor, Direction, outward, inward, WalkState, entries_of, shown_node,
  emit_shown, emit_neighbor, Expansion, enqueue, expand_on, expand, both, expand_node, walk,
  start_queue, walk_from,
}
use shadow_forge.Graph.Nodes.{IsEdge, IsAdjacent, shown_node-id}

module _ (index : Index) (kinds roots : List String) where
  -- A path of so many edges of the kinds, in either direction, leads from a root to the node.
  pub data IsConnected : String → ℕ → Type 0 where
    at_root : {id : String} → has_name id roots ≡ true → IsConnected id 0
    along :
        {id target : String} (kind : String) {distance : ℕ}
        → IsConnected id distance
        → has_name kind kinds ≡ true
        → IsAdjacent index id target kind
        → IsConnected target (suc distance)

module _ (workspace_relative : String → Option Text) (index : Index) (kinds : List String)
    (depth limit : ℕ) (roots : List String) where
  abbrev Connected : String → ℕ → Type 0
  Connected = IsConnected index kinds roots

  -- A neighbour that may be shown: as near as the depth, connected at its distance, by an edge of
  -- one of the kinds.
  pub record IsNeighbor (n : GraphNeighbor) : Type 0 where
    pub connected : Connected n.node.raw_id n.distance
    pub near : n.distance ≤ depth
    pub of_kind : has_name n.edge_kind kinds ≡ true

  record Keeps (st : WalkState) (goes_on : Bool) : Type 0 where
    neighbors : All IsNeighbor st.ordered
    within : length st.ordered ≤ limit
    room : goes_on ≡ true → length st.ordered < limit

  emit_shown-Keeps :
      (o : Option (Option GraphNode)) (id kind : String) (direction : Direction) (distance : ℕ)
      (st : WalkState)
      → ((node : GraphNode) → o ≡ some (some node) → node.raw_id ≡ id)
      → Connected id distance
      → distance ≤ depth
      → has_name kind kinds ≡ true
      → Keeps st true
      → Keeps
          (emit_shown workspace_relative o id kind direction distance limit st).0
          (emit_shown workspace_relative o id kind direction distance limit st).1
  unfolding emit_shown
  emit_shown-Keeps none id kind direction distance st named c n k keeps = keeps
  emit_shown-Keeps (some none) id kind direction distance st named c n k keeps = record {
    neighbors = keeps.neighbors;
    within = keeps.within;
    room = keeps.room;
  }
  emit_shown-Keeps (some (some node)) id kind direction distance st named c n k keeps = record {
    neighbors =
        All-append IsNeighbor st.ordered _ keeps.neighbors
          (record { connected = rw (named node refl) c; near = n; of_kind = k }, tt);
    within = omega (arith, keeps.room refl, length-append st.ordered _);
    room = λ h. ground (arith, h);
  }

  emit_neighbor-Keeps :
      (id kind : String) (direction : Direction) (distance : ℕ) (st : WalkState)
      → Connected id distance
      → distance ≤ depth
      → has_name kind kinds ≡ true
      → Keeps st true
      → let r = emit_neighbor workspace_relative index id kind direction distance limit st in
        Keeps r.0 r.1
  unfolding emit_neighbor
  emit_neighbor-Keeps id kind direction distance st c n k keeps =
      elim (Bool-cases (has_name id st.seen)) [
        | inl h ↦ rw h keeps
        | inr h ↦ rw h (
            emit_shown-Keeps (shown_node workspace_relative index id) id kind direction distance st
              (shown_node-id workspace_relative index id) c n k keeps)
      ]

  abbrev IsQueued : String × ℕ → Type 0
  IsQueued entry = Connected entry.0 entry.1

  abbrev Grown : Type 0
  Grown = Expansion workspace_relative index kinds depth limit

  record IsFine (e : Grown) : Type 0 where
    keeps : Keeps e.state (not e.stopped)
    queued : All IsQueued e.queued

  enqueue-IsFine :
      (id : String) (distance : ℕ) (e : Grown)
      → Connected id distance
      → IsFine e
      → IsFine (enqueue workspace_relative index kinds depth limit id distance e)
  enqueue-IsFine id distance e c fine = record {
    keeps = fine.keeps;
    queued = grown (ltb distance depth);
  }
    where
      grown : (b : Bool) → All IsQueued (if b then (id, distance) ∷ e.queued else e.queued)
      grown true = (c, fine.queued)
      grown false = fine.queued

  expand_on-IsFine :
      (rest : WalkState → Grown) (id : String) (distance : ℕ) (r : WalkState × Bool)
      → Connected id distance
      → Keeps r.0 r.1
      → ((st : WalkState) → Keeps st true → IsFine (rest st))
      → IsFine (expand_on workspace_relative index kinds depth limit rest id distance r)
  expand_on-IsFine rest id distance (st, true) c keeps h =
      enqueue-IsFine id distance (rest st) c (h st keeps)
  expand_on-IsFine rest id distance (st, false) c keeps h = record { keeps = keeps; queued = tt }

  expand-IsFine :
      (direction : Direction) (distance : ℕ) (edges : List (String × String)) (st : WalkState)
      → distance ≤ depth
      → ((target kind : String)
          → IsEdge target kind edges
          → has_name kind kinds ≡ true
          → Connected target distance)
      → Keeps st true
      → IsFine (expand workspace_relative index kinds depth limit direction distance edges st)
  unfolding expand
  expand-IsFine direction distance [] st n c keeps = record { keeps = keeps; queued = tt }
  expand-IsFine direction distance ((id, kind) ∷ edges) st n c keeps =
      elim (Bool-cases (has_name kind kinds)) [
        | inl k ↦ rw k (
            expand_on-IsFine
              (expand workspace_relative index kinds depth limit direction distance edges) id
              distance _ (c id kind (inl (refl, refl)) k)
              (emit_neighbor-Keeps id kind direction distance st (c id kind (inl (refl, refl)) k) n
                k keeps)
              (λ st'.
                expand-IsFine direction distance edges st' n
                  (λ target k' edge. c target k' (inr edge))))
        | inr k ↦ rw k (
            expand-IsFine direction distance edges st n (λ target k' edge. c target k' (inr edge))
              keeps)
      ]

  both-IsFine :
      (e : Grown) (further : WalkState → Grown)
      → IsFine e
      → ((st : WalkState) → Keeps st true → IsFine (further st))
      → IsFine (both workspace_relative index kinds depth limit e further)
  both-IsFine e further fine h = chosen e.stopped refl
    where
      chosen :
          (b : Bool)
          → e.stopped ≡ b
          → IsFine (
              if b
              then e
              else record (further e.state) { queued = e.queued ++ (further e.state).queued })
      chosen true s = fine
      chosen false s =
          let rest = h e.state (subst (λ b. Keeps e.state (not b)) s fine.keeps) in
          record {
            keeps = rest.keeps;
            queued = All-append IsQueued e.queued (further e.state).queued fine.queued rest.queued;
          }

  expand_node-IsFine :
      (id : String) (distance : ℕ) (st : WalkState)
      → suc distance ≤ depth
      → Connected id distance
      → Keeps st true
      → IsFine (expand_node workspace_relative index kinds depth limit id (suc distance) st)
  unfolding expand_node
  expand_node-IsFine id distance st n c keeps =
      both-IsFine _ _
        (expand-IsFine outward (suc distance) (entries_of id index.outbound) st n
          (λ target kind edge k. along kind c k (inl edge)) keeps)
        (λ st'.
          expand-IsFine inward (suc distance) (entries_of id index.inbound) st' n
            (λ target kind edge k. along kind c k (inr edge)))

  -- What has been found is near and connected, and within the limit.
  pub record IsSound (st : WalkState) : Type 0 where
    pub neighbors : All IsNeighbor st.ordered
    pub within : length st.ordered ≤ limit

  abbrev EndsSound : Option (WalkState × Bool) → Type 0
  EndsSound none = Unit
  EndsSound (some r) = IsSound r.0

  Keeps-IsSound : (st : WalkState) {b : Bool} → Keeps st b → IsSound st
  Keeps-IsSound st keeps = record { neighbors = keeps.neighbors; within = keeps.within }

  chosen-EndsSound :
      (far : Bool) (e : Grown) (skipped further : Option (WalkState × Bool))
      → (far ≡ true → EndsSound skipped)
      → (far ≡ false → IsFine e)
      → (far ≡ false → IsFine e → e.stopped ≡ false → EndsSound further)
      → EndsSound (if far then skipped else if e.stopped then some (e.state, true) else further)
  chosen-EndsSound true e skipped further h f k = h refl
  chosen-EndsSound false e skipped further h f k = stop_or e.stopped refl
    where
      stop_or : (b : Bool) → e.stopped ≡ b → EndsSound (if b then some (e.state, true) else further)
      stop_or true s = Keeps-IsSound e.state (f refl).keeps
      stop_or false s = k refl (f refl) s

  walk-EndsSound :
      (fuel : ℕ) (queue : List (String × ℕ)) (st : WalkState)
      → All IsQueued queue
      → Keeps st true
      → EndsSound (walk workspace_relative index kinds depth limit fuel queue st)
  unfolding walk
  walk-EndsSound zero queue st q keeps = tt
  walk-EndsSound (suc fuel) [] st q keeps = Keeps-IsSound st keeps
  walk-EndsSound (suc fuel) ((id, distance) ∷ queue) st q keeps =
      let e = expand_node workspace_relative index kinds depth limit id (suc distance) st in
      chosen-EndsSound (leb depth distance) e _ _ (λ far. walk-EndsSound fuel queue st q.1 keeps)
        (λ near. expand_node-IsFine id distance st (ground (arith, near)) q.0 keeps)
        (λ near fine s.
          walk-EndsSound fuel (queue ++ e.queued) e.state
            (All-append IsQueued queue e.queued q.1 fine.queued)
            (subst (λ b. Keeps e.state (not b)) s fine.keeps))

  start-All :
      (ids : List String)
      → ((id : String) → has_name id ids ≡ true → Connected id 0)
      → All IsQueued (start_queue workspace_relative index kinds depth limit ids)
  start-All [] h = tt
  start-All (id ∷ ids) h =
      (h id (ground (arith, eq_iff id id)), start-All ids (λ i k. h i (ground (arith, k))))

  -- Whatever the fuel, each neighbour that a walk from the roots has found is connected to a root by
  -- as many edges of the kinds as its distance says, at most as many as the depth, and is reached by
  -- an edge of one of the kinds; and no more neighbours are found than the limit allows.
  pub walk_from-IsSound :
      (fuel : ℕ) (r : WalkState × Bool)
      → 0 < limit
      → walk_from workspace_relative index kinds depth limit fuel roots ≡ some r
      → IsSound r.0
  unfolding walk_from
  walk_from-IsSound fuel r h e = subst EndsSound e (
      walk-EndsSound fuel (start_queue workspace_relative index kinds depth limit roots)
        (record { seen = roots; ordered = [] }) (start-All roots (λ id k. at_root k))
        (record { neighbors = tt; within = omega arith; room = λ b. h }))
