-- ===== src/Graph/Covers.antt =====
-- What the expansion of a node leaves seen and queued.
use mathlib.Core.Path.{subst}
use shadow_forge.Base.{
  ℕ, ◌<◌, ◌≡◌, refl, ◌⊎◌, inl, inr, String, Bool, true, false, List, [], ◌∷◌, ◌++◌, Option, arith,
  if◌then◌else◌, ltb, Bool-cases, has_name,
}
use shadow_forge.Text.{Text}
use shadow_forge.Graph.{
  Index, Direction, outward, inward, WalkState, entries_of, Expansion, expand_on, expand,
  expand_node,
}
use shadow_forge.Graph.Nodes.{IsEdge, IsAdjacent}
use shadow_forge.Graph.Extends.{
  Extends, IsHandled, Extends-refl, Extends-trans, Extends-IsHandled, emit_neighbor-Extends,
}

abbrev pub InQueue : String → ℕ → List (String × ℕ) → Type 0
InQueue id distance [] = ⊥
InQueue id distance ((i, d) ∷ queue) = ((i ≡ id) × (d ≡ distance)) ⊎ InQueue id distance queue

pub InQueue-append :
    (id : String) (distance : ℕ) (queue others : List (String × ℕ))
    → InQueue id distance queue ⊎ InQueue id distance others
    → InQueue id distance (queue ++ others)
InQueue-append id distance [] others (inl h) = absurd h
InQueue-append id distance [] others (inr h) = h
InQueue-append id distance (entry ∷ queue) others (inl (inl h)) = inl h
InQueue-append id distance (entry ∷ queue) others (inl (inr h)) =
    inr (InQueue-append id distance queue others (inl h))
InQueue-append id distance (entry ∷ queue) others (inr h) =
    inr (InQueue-append id distance queue others (inr h))

module _ (workspace_relative : String → Option Text) (index : Index) (kinds : List String)
    (depth limit : ℕ) (roots : List String) where
  abbrev Extended : WalkState → WalkState → Type 0
  Extended = Extends workspace_relative index roots

  abbrev Handled : WalkState → String → Type 0
  Handled = IsHandled workspace_relative index roots

  abbrev Grown : Type 0
  Grown = Expansion workspace_relative index kinds depth limit

  -- An expansion that is not stopped handles every edge of the kinds, and queues it where the walk
  -- goes on.
  record Covers (edges : List (String × String)) (distance : ℕ) (st : WalkState) (e : Grown)
      : Type 0 where
    extends : Extended st e.state
    handled :
        (target kind : String)
        → e.stopped ≡ false
        → IsEdge target kind edges
        → has_name kind kinds ≡ true
        → Handled e.state target
    queued :
        (target kind : String)
        → e.stopped ≡ false
        → IsEdge target kind edges
        → has_name kind kinds ≡ true
        → distance < depth
        → InQueue target distance e.queued

  expand_on-Covers :
      (id k : String) (edges : List (String × String)) (distance : ℕ) (st : WalkState)
      (rest : WalkState → Grown) (r : WalkState × Bool)
      → Extended st r.0 × Handled r.0 id
      → ((st' : WalkState) → Covers edges distance st' (rest st'))
      → Covers
          ((id, k) ∷ edges)
          distance
          st
          (expand_on workspace_relative index kinds depth limit rest id distance r)
  expand_on-Covers id k edges distance st rest (st', true) h more = record {
    extends =
        Extends-trans workspace_relative index roots st st' (rest st').state h.0 (more st').extends;
    handled = λ target kind s edge n. elim edge [
      | inl same ↦
          Extends-IsHandled workspace_relative index roots st' (rest st').state target
            (more st').extends (subst (Handled st') same.0 h.1)
      | inr other ↦ (more st').handled target kind s other n
    ];
    queued = λ target kind s edge n near.
        let in_reach : ltb distance depth ≡ true = ground (arith, near) in
        rw in_reach (elim edge [
          | inl same ↦ inl (same.0, refl)
          | inr other ↦ inr ((more st').queued target kind s other n near)
        ]);
  }
  expand_on-Covers id k edges distance st rest (st', false) h more = record {
    extends = h.0;
    handled = λ target kind s edge n. cc;
    queued = λ target kind s edge n near. cc;
  }

  passed_over :
      (id k : String) (edges : List (String × String)) (distance : ℕ) (st : WalkState) (e : Grown)
      → has_name k kinds ≡ false
      → Covers edges distance st e
      → Covers ((id, k) ∷ edges) distance st e
  passed_over id k edges distance st e other c = record {
    extends = c.extends;
    handled = λ target kind s edge n. elim edge [
      | inl same ↦ let m = rw (← same.1) at n in cc
      | inr there ↦ c.handled target kind s there n
    ];
    queued = λ target kind s edge n near. elim edge [
      | inl same ↦ let m = rw (← same.1) at n in cc
      | inr there ↦ c.queued target kind s there n near
    ];
  }

  expand-Covers :
      (direction : Direction) (distance : ℕ) (edges : List (String × String)) (st : WalkState)
      → Covers edges distance st
          (expand workspace_relative index kinds depth limit direction distance edges st)
  unfolding expand
  expand-Covers direction distance [] st = record {
    extends = Extends-refl workspace_relative index roots st;
    handled = λ target kind s edge n. absurd edge;
    queued = λ target kind s edge n near. absurd edge;
  }
  expand-Covers direction distance ((id, k) ∷ edges) st = elim (Bool-cases (has_name k kinds)) [
    | inl h ↦ rw h (
        expand_on-Covers id k edges distance st
          (expand workspace_relative index kinds depth limit direction distance edges) _
          (emit_neighbor-Extends workspace_relative index roots id k direction distance limit st)
          (λ st'. expand-Covers direction distance edges st'))
    | inr h ↦
        rw h (passed_over id k edges distance st _ h (expand-Covers direction distance edges st))
  ]

  pub record CoversNode (id : String) (distance : ℕ) (st : WalkState) (e : Grown) : Type 0 where
    pub extends : Extended st e.state
    pub handled :
        (target kind : String)
        → e.stopped ≡ false
        → IsAdjacent index id target kind
        → has_name kind kinds ≡ true
        → Handled e.state target
    pub queued :
        (target kind : String)
        → e.stopped ≡ false
        → IsAdjacent index id target kind
        → has_name kind kinds ≡ true
        → distance < depth
        → InQueue target distance e.queued

  both-CoversNode :
      (id : String) (distance : ℕ) (st : WalkState) (first second : Grown) (stop : Bool)
      → first.stopped ≡ stop
      → Covers (entries_of id index.outbound) distance st first
      → Covers (entries_of id index.inbound) distance first.state second
      → CoversNode id distance st
          (if stop then first else record second { queued = first.queued ++ second.queued })
  both-CoversNode id distance st first second true s c d = record {
    extends = c.extends;
    handled = λ target kind f edge n. cc;
    queued = λ target kind f edge n near. cc;
  }
  both-CoversNode id distance st first second false s c d = record {
    extends =
        Extends-trans workspace_relative index roots st first.state second.state c.extends
          d.extends;
    handled = λ target kind f edge n. elim edge [
      | inl out ↦
          Extends-IsHandled workspace_relative index roots first.state second.state target d.extends
            (c.handled target kind s out n)
      | inr into ↦ d.handled target kind f into n
    ];
    queued = λ target kind f edge n near.
        InQueue-append target distance first.queued second.queued (elim edge [
          | inl out ↦ inl (c.queued target kind s out n near)
          | inr into ↦ inr (d.queued target kind f into n near)
        ]);
  }

  pub expand_node-CoversNode :
      (id : String) (distance : ℕ) (st : WalkState)
      → CoversNode id distance st
          (expand_node workspace_relative index kinds depth limit id distance st)
  unfolding expand_node
  expand_node-CoversNode id distance st =
      both-CoversNode id distance st _ _ _ refl
        (expand-Covers outward distance (entries_of id index.outbound) st)
        (expand-Covers inward distance (entries_of id index.inbound) _)
