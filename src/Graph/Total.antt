-- ===== src/Graph/Total.antt =====
-- The walk ends: enough fuel is given by the number of walks from the queue.
use shadow_forge.Base.{
  ℕ, zero, suc, ◌+◌, ◌-◌, ◌≤◌, ◌<◌, ◌≡◌, refl, inl, inr, String, Bool, true, false, List, [], ◌∷◌,
  ◌++◌, Option, some, arith, if◌then◌else◌, ltb, leb, Bool-cases, has_name,
}
use shadow_forge.Text.{Text}
use shadow_forge.Graph.{
  Index, Direction, outward, inward, WalkState, entries_of, Expansion, expand_on, expand, both,
  expand_node, walk,
}

abbrev total_of : (String → ℕ) → List (String × String) → ℕ
total_of f [] = 0
total_of f ((id, kind) ∷ edges) = f id + total_of f edges

module _ (index : Index) where
  -- How many entries a walk takes out of the queue for one of them with so many levels left, at most.
  unfoldable pub cost : ℕ → String → ℕ
  cost zero id = 1
  cost (suc left) id = suc (
      total_of (cost left) (entries_of id index.outbound)
      + total_of (cost left) (entries_of id index.inbound))

  abbrev pub costs : ℕ → List (String × String) → ℕ
  costs left edges = total_of (cost left) edges

  abbrev pub queue_cost : ℕ → List (String × ℕ) → ℕ
  queue_cost depth [] = 0
  queue_cost depth ((id, distance) ∷ queue) = cost (depth - distance) id + queue_cost depth queue

  queue_cost-append :
      (depth : ℕ) (queue others : List (String × ℕ))
      → queue_cost depth (queue ++ others) ≡ queue_cost depth queue + queue_cost depth others
  queue_cost-append depth [] others = omega arith
  queue_cost-append depth ((id, distance) ∷ queue) others =
      omega (arith, queue_cost-append depth queue others)

  cost_pos : (left : ℕ) (id : String) → 1 ≤ cost left id
  unfolding cost
  cost_pos zero id = omega arith
  cost_pos (suc left) id = omega arith

module _ (workspace_relative : String → Option Text) (index : Index) (kinds : List String)
    (depth limit : ℕ) where
  abbrev expand_here :
      Direction
      → ℕ
      → List (String × String)
      → WalkState
      → Expansion workspace_relative index kinds depth limit
  expand_here = expand workspace_relative index kinds depth limit

  expand_on-cost :
      (left distance : ℕ) (id : String) (rest : ℕ)
      (further : WalkState → Expansion workspace_relative index kinds depth limit)
      (r : WalkState × Bool)
      → depth - distance ≡ left
      → ((st : WalkState) → queue_cost index depth (further st).queued ≤ rest)
      → queue_cost index depth
          (expand_on workspace_relative index kinds depth limit further id distance r).queued
        ≤ cost index left id + rest
  expand_on-cost left distance id rest further (st, true) e h =
      elim (Bool-cases (ltb distance depth)) [
        | inl in_reach ↦ rw (in_reach, e) (omega (arith, h st))
        | inr out ↦ rw out (omega (arith, h st))
      ]
  expand_on-cost left distance id rest further (st, false) e h = omega arith

  expand-cost :
      (left distance : ℕ) (direction : Direction) (edges : List (String × String)) (st : WalkState)
      → depth - distance ≡ left
      → queue_cost index depth (expand_here direction distance edges st).queued
        ≤ costs index left edges
  unfolding expand cost
  expand-cost left distance direction [] st e = omega arith
  expand-cost left distance direction ((id, kind) ∷ edges) st e =
      elim (Bool-cases (has_name kind kinds)) [
        | inl h ↦ rw h (
            expand_on-cost left distance id (costs index left edges)
              (expand_here direction distance edges) _ e
              (λ st'. expand-cost left distance direction edges st' e))
        | inr h ↦ rw h (omega (arith, expand-cost left distance direction edges st e))
      ]

  expand_node-cost :
      (left distance : ℕ) (id : String) (st : WalkState)
      → depth - distance ≡ left
      → suc (
          queue_cost index depth
            (expand_node workspace_relative index kinds depth limit id distance st).queued)
        ≤ cost index (suc left) id
  unfolding expand_node cost
  expand_node-cost left distance id st e =
      of_both (expand_here outward distance (entries_of id index.outbound) st)
        (expand-cost left distance outward (entries_of id index.outbound) st e)
    where
      further : WalkState → Expansion workspace_relative index kinds depth limit
      further = expand_here inward distance (entries_of id index.inbound)

      of_both :
          (first : Expansion workspace_relative index kinds depth limit)
          → queue_cost index depth first.queued ≤ costs index left (entries_of id index.outbound)
          → suc (
              queue_cost index depth
                (both workspace_relative index kinds depth limit first further).queued)
            ≤ suc (
                costs index left (entries_of id index.outbound)
                + costs index left (entries_of id index.inbound))
      of_both first h = elim (Bool-cases first.stopped) [
        | inl s ↦ simp s (omega (arith, h))
        | inr s ↦ simp s (
            omega (
              arith,
              h,
              queue_cost-append index depth first.queued (further first.state).queued,
              expand-cost left distance inward (entries_of id index.inbound) first.state e,
            ))
      ]

  ended :
      (far stopped : Bool) (cut : WalkState × Bool) {skipped further : Option (WalkState × Bool)}
      → (far ≡ true → (r : WalkState × Bool) × (skipped ≡ some r))
      → (far ≡ false → (r : WalkState × Bool) × (further ≡ some r))
      → (r : WalkState × Bool) × ((if far then skipped else if stopped then some cut else further)
          ≡ some r)
  ended true stopped cut h k = h refl
  ended false true cut h k = (cut, refl)
  ended false false cut h k = k refl

  -- With more fuel than the cost of its queue the walk over the graph, cycles included, ends with a
  -- result.
  pub walk-total :
      (fuel : ℕ) (queue : List (String × ℕ)) (st : WalkState)
      → queue_cost index depth queue < fuel
      → (r : WalkState × Bool) × (walk workspace_relative index kinds depth limit fuel queue st
          ≡ some r)
  unfolding walk
  walk-total zero queue st h = absurd (omega arith)
  walk-total (suc fuel) [] st h = ((st, false), refl)
  walk-total (suc fuel) ((id, distance) ∷ queue) st h =
      ended (leb depth distance) (next.stopped) (next.state, true)
        (λ far. walk-total fuel queue st (omega (arith, h, cost_pos index (depth - distance) id)))
        (λ near. walk-total fuel (queue ++ next.queued) next.state (room near))
    where
      next : Expansion workspace_relative index kinds depth limit
      next = expand_node workspace_relative index kinds depth limit id (suc distance) st

      room : leb depth distance ≡ false → queue_cost index depth (queue ++ next.queued) < fuel
      room near =
          let levels : depth - distance ≡ suc (depth - suc distance) = ground (arith, near) in
          let spent = expand_node-cost (depth - suc distance) (suc distance) id st refl in
          let now = rw levels at h in
          omega (arith, now, spent, queue_cost-append index depth queue next.queued)
