-- ===== src/Env/Manifest.antt =====
-- Which install a patch schedules (env/manifest_match.py, `resolve_manifest_scope_key`).
use shadow_forge.Base.{
  ◌≡◌, refl, ap, ◌⊎◌, inl, inr, String, Bool, true, false, not, List, [], ◌∷◌, ◌++◌, Option, none,
  some, if◌then◌else◌, All,
}
use shadow_forge.Text.{Text, codes, text_eq}
use shadow_forge.Env.{
  EnvEcosystemEntry, scope_key, has_text, manifest_basenames, normalize, posix_name, by_manifest,
  resolve_manifest_scope_key,
}

-- No ecosystem has the manifest.
abbrev pub IsUnknown : Text → List EnvEcosystemEntry → Type 0
IsUnknown norm entries = All (λ entry. text_eq entry.manifest_path norm ≡ false) entries

-- The last ecosystem with the manifest.
pub record IsLast (norm : Text) (entries : List EnvEcosystemEntry) (key : String) : Type 0 where
  pub before : List EnvEcosystemEntry
  pub entry : EnvEcosystemEntry
  pub after : List EnvEcosystemEntry
  pub whole : entries ≡ before ++ entry ∷ after
  pub matches : text_eq entry.manifest_path norm ≡ true
  pub named : scope_key entry ≡ key
  pub later : IsUnknown norm after

data Looked (norm : Text) (entries : List EnvEcosystemEntry) : Option String → Type 0 where
  known : {key : String} → IsLast norm entries key → Looked norm entries (some key)
  unknown : IsUnknown norm entries → Looked norm entries none

by_manifest-Looked :
    (norm : Text) (entries : List EnvEcosystemEntry)
    → Looked norm entries (by_manifest norm entries)
unfolding by_manifest
by_manifest-Looked norm [] = unknown tt
by_manifest-Looked norm (entry ∷ entries) =
    later (by_manifest norm entries) (by_manifest-Looked norm entries)
  where
    here :
        (b : Bool)
        → text_eq entry.manifest_path norm ≡ b
        → IsUnknown norm entries
        → Looked norm (entry ∷ entries) (if b then some (scope_key entry) else none)
    here true h u = known (record {
      before = [];
      entry = entry;
      after = entries;
      whole = refl;
      matches = h;
      named = refl;
      later = u;
    })
    here false h u = unknown (h, u)

    later :
        (o : Option String)
        → Looked norm entries o
        → Looked norm (entry ∷ entries) (elim o [
          | some key ↦ some key
          | none ↦ if text_eq entry.manifest_path norm then some (scope_key entry) else none
        ])
    later (some key) (known last) = known (record {
      before = entry ∷ last.before;
      entry = last.entry;
      after = last.after;
      whole = ap (λ es. entry ∷ es) last.whole;
      matches = last.matches;
      named = last.named;
      later = last.later;
    })
    later none (unknown u) = here (text_eq entry.manifest_path norm) refl u

module _ (entries : List EnvEcosystemEntry) where
  -- The file is no manifest by its name, or no ecosystem has it.
  abbrev pub IsIdle : String → Type 0
  IsIdle raw =
      (has_text (posix_name (normalize (codes raw))) manifest_basenames ≡ false)
      ⊎ IsUnknown (normalize (codes raw)) entries

  pub data Finds (touched : List String) : Option String → Type 0 where
    found :
        (before : List String) (raw : String) (after : List String) (key : String)
        → touched ≡ before ++ raw ∷ after
        → All IsIdle before
        → has_text (posix_name (normalize (codes raw))) manifest_basenames ≡ true
        → IsLast (normalize (codes raw)) entries key
        → Finds touched (some key)
    missing : All IsIdle touched → Finds touched none

  passed_over :
      (raw : String) (others : List String) (o : Option String)
      → IsIdle raw
      → Finds others o
      → Finds (raw ∷ others) o
  passed_over raw others o idle (found before r after key whole earlier name last) =
      found (raw ∷ before) r after key (ap (λ rs. raw ∷ rs) whole) (idle, earlier) name last
  passed_over raw others o idle (missing idles) = missing (idle, idles)

  decided :
      (raw : String) (others : List String) (o rest : Option String)
      → has_text (posix_name (normalize (codes raw))) manifest_basenames ≡ true
      → Looked (normalize (codes raw)) entries o
      → Finds others rest
      → Finds (raw ∷ others) (elim o [ some key ↦ some key | none ↦ rest ])
  decided raw others o rest name (known last) more = found [] raw others _ refl tt name last
  decided raw others o rest name (unknown u) more = passed_over raw others rest (inr u) more

  -- The install that a patch schedules is that of the first touched file which is a manifest of the
  -- profile, by its name and its normalized path, and of the last ecosystem with this manifest; no
  -- install is scheduled exactly if there is no such file.
  pub resolve_manifest_scope_key-Finds :
      (touched : List String) → Finds touched (resolve_manifest_scope_key touched entries)
  unfolding resolve_manifest_scope_key
  resolve_manifest_scope_key-Finds [] = missing tt
  resolve_manifest_scope_key-Finds (raw ∷ others) =
      choose (has_text (posix_name (normalize (codes raw))) manifest_basenames) refl
        (resolve_manifest_scope_key-Finds others)
    where
      choose :
          (b : Bool)
          → has_text (posix_name (normalize (codes raw))) manifest_basenames ≡ b
          → Finds others (resolve_manifest_scope_key others entries)
          → Finds (raw ∷ others) (
              if not b
              then resolve_manifest_scope_key others entries
              else elim (by_manifest (normalize (codes raw)) entries) [
                | some key ↦ some key
                | none ↦ resolve_manifest_scope_key others entries
              ])
      choose true h more =
          decided raw others (by_manifest (normalize (codes raw)) entries) _ h
            (by_manifest-Looked (normalize (codes raw)) entries) more
      choose false h more = passed_over raw others _ (inl h) more
