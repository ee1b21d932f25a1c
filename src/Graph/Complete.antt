-- ===== src/Graph/Complete.antt =====
-- A walk that is not cut has found all that is near.
use mathlib.Core.Path.{subst}
use shadow_forge.Base.{
  ℕ, zero, suc, ◌≤◌, ◌<◌, ◌≡◌, refl, sym, ◌⊎◌, inl, inr, String, Bool, true, false, List, [], ◌∷◌,
  ◌++◌, Option, none, some, arith, if◌then◌else◌, ltb, leb, Bool-cases, has_name, str_eq, eq_iff,
}
use shadow_forge.Text.{Text}
use shadow_forge.Graph.{
  Index, GraphNode, WalkState, shown_node, Expansion, expand_node, walk, start_queue, walk_from,
}
use shadow_forge.Graph.Sound.{IsConnected}
use shadow_forge.Graph.Extends.{
  is_listed, Extends, IsHandled, Extends-refl, Extends-trans, Extends-IsHandled,
}
use shadow_forge.Graph.Covers.{InQueue, InQueue-append, CoversNode, expand_node-CoversNode}
use shadow_forge.Graph.Leads.{Leads, arrived, first_edge, Leads-same, from_root}

module _ (workspace_relative : String → Option Text) (index : Index) (kinds : List String)
    (depth limit : ℕ) (roots : List String) where
  abbrev Grown : Type 0
  Grown = Expansion workspace_relative index kinds depth limit

  abbrev Extended : WalkState → WalkState → Type 0
  Extended = Extends workspace_relative index roots

  abbrev Handled : WalkState → String → Type 0
  Handled = IsHandled workspace_relative index roots

  -- What a walk that is not cut leaves of its queue.
  record Exhausts (queue : List (String × ℕ)) (st last : WalkState) : Type 0 where
    extends : Extended st last
    covered :
        (id target : String) (distance far : ℕ)
        → InQueue id distance queue
        → Leads index kinds id distance target far
        → far ≤ depth
        → distance < far
        → Handled last target

  abbrev EndsCovered : List (String × ℕ) → WalkState → Option (WalkState × Bool) → Type 0
  EndsCovered queue st none = Unit
  EndsCovered queue st (some (last, true)) = Unit
  EndsCovered queue st (some (last, false)) = Exhausts queue st last

  skipped-EndsCovered :
      (id : String) (distance : ℕ) (queue : List (String × ℕ)) (st : WalkState)
      (o : Option (WalkState × Bool))
      → depth ≤ distance
      → EndsCovered queue st o
      → EndsCovered ((id, distance) ∷ queue) st o
  skipped-EndsCovered id distance queue st none n h = tt
  skipped-EndsCovered id distance queue st (some (last, true)) n h = tt
  skipped-EndsCovered id distance queue st (some (last, false)) n h = record {
    extends = h.extends;
    covered = λ i target d far inside path near further. elim inside [
      | inl same ↦ absurd (let e = same.1 in omega (arith, e))
      | inr other ↦ h.covered i target d far other path near further
    ];
  }

  further-EndsCovered :
      (id : String) (distance : ℕ) (queue : List (String × ℕ)) (st : WalkState) (e : Grown)
      (o : Option (WalkState × Bool))
      → e.stopped ≡ false
      → CoversNode workspace_relative index kinds depth limit roots id (suc distance) st e
      → EndsCovered (queue ++ e.queued) e.state o
      → EndsCovered ((id, distance) ∷ queue) st o
  further-EndsCovered id distance queue st e none s c h = tt
  further-EndsCovered id distance queue st e (some (last, true)) s c h = tt
  further-EndsCovered id distance queue st e (some (last, false)) s c h = record {
    extends = Extends-trans workspace_relative index roots st e.state last c.extends h.extends;
    covered = λ i target d far inside path near further. elim inside [
      | inl same ↦
          from_node target far
            (subst (λ k. Leads index kinds id k target far) (sym same.1)
              (subst (λ k. Leads index kinds k d target far) (sym same.0) path))
            near (rw (← same.1) at further)
      | inr other ↦
          h.covered i target d far (InQueue-append i d queue e.queued (inl other)) path near further
    ];
  }
    where
      from_node :
          (target : String) (far : ℕ)
          → Leads index kinds id distance target far
          → far ≤ depth
          → distance < far
          → Handled last target
      from_node target far arrived near further = absurd (omega (arith, further))
      from_node target far (first_edge mid kind edge n path) near further =
          elim (Bool-cases (ltb (suc distance) far)) [
            | inl more ↦
                let away : suc distance < far = ground (arith, more) in
                h.covered mid target (suc distance) far
                  (InQueue-append mid (suc distance) queue e.queued
                    (inr (c.queued mid kind s edge n (omega (arith, away, near)))))
                  path near away
            | inr end ↦
                let here : far ≤ suc distance = ground (arith, end) in
                subst (Handled last)
                  (Leads-same index kinds mid target (suc distance) far path here)
                  (Extends-IsHandled workspace_relative index roots e.state last mid h.extends
                    (c.handled mid kind s edge n))
          ]

  walk-EndsCovered :
      (fuel : ℕ) (queue : List (String × ℕ)) (st : WalkState)
      → EndsCovered queue st (walk workspace_relative index kinds depth limit fuel queue st)
  unfolding walk
  walk-EndsCovered zero queue st = tt
  walk-EndsCovered (suc fuel) [] st = record {
    extends = Extends-refl workspace_relative index roots st;
    covered = λ i target d far inside path near further. absurd inside;
  }
  walk-EndsCovered (suc fuel) ((id, distance) ∷ queue) st =
      chosen (leb depth distance) refl next.stopped refl _ _ (walk-EndsCovered fuel queue st)
        (walk-EndsCovered fuel (queue ++ next.queued) next.state)
    where
      next : Grown
      next = expand_node workspace_relative index kinds depth limit id (suc distance) st

      chosen :
          (far : Bool)
          → leb depth distance ≡ far
          → (stop : Bool) → next.stopped ≡ stop
          → (skipped further : Option (WalkState × Bool)) → EndsCovered queue st skipped
          → EndsCovered (queue ++ next.queued) next.state further
          → EndsCovered
              ((id, distance) ∷ queue)
              st
              (if far then skipped else if stop then some (next.state, true) else further)
      chosen true f stop s skipped further h k =
          skipped-EndsCovered id distance queue st _ (ground (arith, f)) h
      chosen false f true s skipped further h k = tt
      chosen false f false s skipped further h k =
          further-EndsCovered id distance queue st next _ s
            (expand_node-CoversNode workspace_relative index kinds depth limit roots id
              (suc distance) st)
            k

  queued_root :
      (id : String) (ids : List String)
      → has_name id ids ≡ true
      → InQueue id 0 (start_queue workspace_relative index kinds depth limit ids)
  queued_root id [] h = cc
  queued_root id (i ∷ ids) h = elim (Bool-cases (str_eq i id)) [
    | inl same ↦ inl ((eq_iff i id).0 same, refl)
    | inr other ↦ inr (queued_root id ids (rw other at h))
  ]

  found_or_root :
      (id : String) (node : GraphNode) (last : WalkState)
      → shown_node workspace_relative index id ≡ some (some node)
      → Extended (record { seen = roots; ordered = [] }) last
      → Handled last id
      → (has_name id roots ≡ true) ⊎ (is_listed id last.ordered ≡ true)
  found_or_root id node last e extends (inr none_there) = cc
  found_or_root id node last e extends (inl seen) = elim (extends.explained id seen) [
    | inl at_start ↦ inl at_start
    | inr (inl root) ↦ inl root
    | inr (inr (inl hidden)) ↦ cc
    | inr (inr (inr found)) ↦ inr found
  ]

  -- A walk that has not been cut by the limit is complete: every node of the workspace that edges of
  -- the kinds connect to a root, over at most as many edges as the depth, is a root or among the
  -- neighbours found.
  pub walk_from_complete :
      (fuel : ℕ) (last : WalkState) (id : String) (distance : ℕ) (node : GraphNode)
      → walk_from workspace_relative index kinds depth limit fuel roots ≡ some (last, false)
      → IsConnected index kinds roots id distance
      → distance ≤ depth
      → shown_node workspace_relative index id ≡ some (some node)
      → (has_name id roots ≡ true) ⊎ (is_listed id last.ordered ≡ true)
  unfolding walk_from
  walk_from_complete fuel last id distance node e c near shown =
      let (root, at, path) = from_root index kinds roots id distance c in
      let ends =
        subst
          (EndsCovered (start_queue workspace_relative index kinds depth limit roots)
            (record { seen = roots; ordered = [] }))
          e
          (walk-EndsCovered fuel (start_queue workspace_relative index kinds depth limit roots)
            (record { seen = roots; ordered = [] })) in
      elim (Bool-cases (ltb 0 distance)) [
        | inl away ↦ found_or_root id node last shown ends.extends (
            ends.covered root id 0 distance (queued_root root roots at) path near
              (ground (arith, away)))
        | inr here ↦ inl (
            subst (λ i. has_name i roots ≡ true)
              (Leads-same index kinds root id 0 distance path (ground (arith, here))) at)
      ]
