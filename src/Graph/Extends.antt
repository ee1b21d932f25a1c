-- ===== src/Graph/Extends.antt =====
-- What a step of the walk adds to its state, and why a node counts as seen.
use shadow_forge.Base.{
  ℕ, ◌≡◌, refl, ◌⊎◌, inl, inr, String, Bool, true, List, Option, none, some, arith, Bool-cases, any,
  any-append, has_name, str_eq, eq_iff,
}
use shadow_forge.Text.{Text}
use shadow_forge.Graph.{
  Index, GraphNode, GraphNeighbor, Direction, WalkState, shown_node, emit_shown, emit_neighbor,
}
use shadow_forge.Graph.Nodes.{shown_node-id}

-- A neighbour of this id is among those found.
abbrev pub is_listed : String → List GraphNeighbor → Bool
is_listed id neighbors = any (λ n. str_eq n.node.raw_id id) neighbors

module _ (workspace_relative : String → Option Text) (index : Index) (roots : List String) where
  -- Why a node counts as seen.
  abbrev pub IsExplained : WalkState → String → Type 0
  IsExplained st id =
      (has_name id roots ≡ true)
      ⊎ (shown_node workspace_relative index id ≡ some none)
      ⊎ (is_listed id st.ordered ≡ true)

  -- What a part of the walk does to the state: nothing that is seen or found is lost, and what
  -- becomes seen is explained.
  pub record Extends (st after : WalkState) : Type 0 where
    pub seen : (id : String) → has_name id st.seen ≡ true → has_name id after.seen ≡ true
    pub listed : (id : String) → is_listed id st.ordered ≡ true → is_listed id after.ordered ≡ true
    pub explained :
        (id : String)
        → has_name id after.seen ≡ true
        → (has_name id st.seen ≡ true) ⊎ IsExplained after id

  pub Extends-refl : (st : WalkState) → Extends st st
  Extends-refl st = record { seen = λ id h. h; listed = λ id h. h; explained = λ id h. inl h }

  Extends-IsExplained :
      (st after : WalkState) (id : String)
      → Extends st after
      → IsExplained st id
      → IsExplained after id
  Extends-IsExplained st after id e (inl h) = inl h
  Extends-IsExplained st after id e (inr (inl h)) = inr (inl h)
  Extends-IsExplained st after id e (inr (inr h)) = inr (inr (e.listed id h))

  pub Extends-trans :
      (st mid after : WalkState) → Extends st mid → Extends mid after → Extends st after
  Extends-trans st mid after e f = record {
    seen = λ id h. f.seen id (e.seen id h);
    listed = λ id h. f.listed id (e.listed id h);
    explained = λ id h. elim (f.explained id h) [
      | inl k ↦ elim (e.explained id k) [
        | inl l ↦ inl l
        | inr l ↦ inr (Extends-IsExplained mid after id f l)
      ]
      | inr k ↦ inr k
    ];
  }

  -- Seen, or no node of the snapshot.
  abbrev pub IsHandled : WalkState → String → Type 0
  IsHandled st id = (has_name id st.seen ≡ true) ⊎ (shown_node workspace_relative index id ≡ none)

  pub Extends-IsHandled :
      (st after : WalkState) (id : String) → Extends st after → IsHandled st id → IsHandled after id
  Extends-IsHandled st after id e (inl h) = inl (e.seen id h)
  Extends-IsHandled st after id e (inr h) = inr h

  emit_shown-Extends :
      (o : Option (Option GraphNode)) (id kind : String) (direction : Direction)
      (distance limit : ℕ) (st : WalkState)
      → shown_node workspace_relative index id ≡ o
      → let r = emit_shown workspace_relative o id kind direction distance limit st in
        Extends st r.0 × IsHandled r.0 id
  unfolding emit_shown
  emit_shown-Extends none id kind direction distance limit st e = (Extends-refl st, inr e)
  emit_shown-Extends (some none) id kind direction distance limit st e = (
    record {
      seen = λ x h. ground (arith, h);
      listed = λ x h. h;
      explained = λ x h. ground (arith, h, e, eq_iff id x);
    },
    inl (ground (arith, eq_iff id id)),
  )
  emit_shown-Extends (some (some node)) id kind direction distance limit st e =
      let named = shown_node-id workspace_relative index id node e in
      (
        record {
          seen = λ x h. ground (arith, h);
          listed = λ x h. rw any-append (ground (arith, h));
          explained = λ x h. elim (Bool-cases (str_eq id x)) [
            | inl t ↦ inr (inr (inr (rw (any-append, named, t) (ground (arith)))))
            | inr t ↦ inl (rw t at h)
          ];
        },
        inl (ground (arith, eq_iff id id)),
      )

  pub emit_neighbor-Extends :
      (id kind : String) (direction : Direction) (distance limit : ℕ) (st : WalkState)
      → let r = emit_neighbor workspace_relative index id kind direction distance limit st in
        Extends st r.0 × IsHandled r.0 id
  unfolding emit_neighbor
  emit_neighbor-Extends id kind direction distance limit st =
      elim (Bool-cases (has_name id st.seen)) [
        | inl h ↦ rw h (Extends-refl st, inl h)
        | inr h ↦ rw h (
            emit_shown-Extends (shown_node workspace_relative index id) id kind direction distance
              limit st refl)
      ]
