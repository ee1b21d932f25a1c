-- ===== src/Graph/Leads.antt =====
-- Paths of edges of the snapshot.
use shadow_forge.Base.{ℕ, suc, ◌≤◌, ◌≡◌, refl, String, true, List, arith, has_name}
use shadow_forge.Graph.{Index}
use shadow_forge.Graph.Nodes.{IsAdjacent}
use shadow_forge.Graph.Sound.{IsConnected, at_root, along}

module _ (index : Index) (kinds : List String) where
  -- A path of edges of the kinds, with the distance at its ends.
  pub data Leads : String → ℕ → String → ℕ → Type 0 where
    arrived : {id : String} {distance : ℕ} → Leads id distance id distance
    first_edge :
        {id : String} {distance : ℕ} (mid kind : String) {target : String} {last : ℕ}
        → IsAdjacent index id mid kind
        → has_name kind kinds ≡ true
        → Leads mid (suc distance) target last
        → Leads id distance target last

  Leads-le :
      (id target : String) (distance last : ℕ) → Leads id distance target last → distance ≤ last
  Leads-le id target distance last arrived = omega arith
  Leads-le id target distance last (first_edge mid kind edge n path) =
      omega (arith, Leads-le mid target (suc distance) last path)

  pub Leads-same :
      (id target : String) (distance last : ℕ)
      → Leads id distance target last
      → last ≤ distance
      → id ≡ target
  Leads-same id target distance last arrived h = refl
  Leads-same id target distance last (first_edge mid kind edge n path) h =
      absurd (omega (arith, h, Leads-le mid target (suc distance) last path))

  pub Leads-snoc :
      (id mid target kind : String) (distance last : ℕ)
      → Leads id distance mid last
      → IsAdjacent index mid target kind
      → has_name kind kinds ≡ true
      → Leads id distance target (suc last)
  Leads-snoc id mid target kind distance last arrived edge n = first_edge target kind edge n arrived
  Leads-snoc id mid target kind distance last (first_edge m k e h path) edge n =
      first_edge m k e h (Leads-snoc m mid target kind (suc distance) last path edge n)

  pub from_root :
      (roots : List String) (id : String) (distance : ℕ)
      → IsConnected index kinds roots id distance
      → (root : String) × (has_name root roots ≡ true) × Leads root 0 id distance
  from_root roots id distance (at_root h) = (id, h, arrived)
  from_root roots id distance (along {id = mid} kind c n edge) =
      let (root, h, path) = from_root roots mid _ c in
      (root, h, Leads-snoc root mid id kind 0 _ path edge n)
