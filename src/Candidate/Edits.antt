-- ===== src/Candidate/Edits.antt =====
-- Candidates of text edits are applied exactly as they were simulated (patch/engine.py,
-- `preflight_patch_candidate` and `apply_patch_candidate`).
use shadow_forge.Base.{
  ◌≡◌, refl, sym, ap, ◌∙◌, false, inl, inr, String, Bool, Option, none, some, arith, Bool-cases,
  Option-cases, Result, ok, err,
}
use shadow_forge.Text.{Text, splitlines, read_text}
use shadow_forge.Text.Newlines.{
  has_return, splitlines-read_text, replace_first-has_return, join-has_return,
}
use shadow_forge.Text.Lines.{splitlines-AreLines}
use shadow_forge.Disk.{file, Disk, write}
use shadow_forge.Patch.{RangeAnchor, PatchFailureCode}
use shadow_forge.Patch.Simulate.{Engine, simulate_range}
use shadow_forge.Patch.Apply.{apply_replace_range, is_python}
use shadow_forge.Patch.Splice.{apply_range-simulate}
use shadow_forge.Candidate.{PatchOperationV2, search_replace, replace_lines, Parsers}
use shadow_forge.Candidate.Simulate.{simulate, simulate_edit, simulate_search, simulate_lines}
use shadow_forge.Candidate.Apply.{OpError, rewrite, unchecked, apply_search_replace, apply_at}

-- The operations that exchange a range of lines, or a text for one without carriage returns.
abbrev pub IsTextEdit : PatchOperationV2 → Type 0
IsTextEdit (search_replace name search replace) = has_return replace ≡ false
IsTextEdit (replace_lines name anchor content) = Unit
IsTextEdit _ = ⊥

-- A simulated edit has a source before and behind, and the application writes the latter.
pub record Edited (engine : Engine) (parsers : Parsers) (op : PatchOperationV2)
    (current updated : Option Text) : Type 0 where
  pub source : Text
  pub before : current ≡ some source
  pub result : Text
  pub behind : updated ≡ some result
  pub plain : has_return source ≡ false → has_return result ≡ false
  pub written :
      (target : String) (d : Disk) (raw : Text)
      → d target ≡ file raw
      → read_text raw ≡ source
      → apply_at engine parsers target op d ≡ (write target (file result) d, none)

searched :
    (mutated : Bool) (search replace source result : Text)
    → simulate_search mutated search replace source ≡ ok result
    → apply_search_replace search replace source ≡ ok result
unfolding simulate_search apply_search_replace
searched mutated search replace source result h = ground arith

ok_same : {E A : Type 0} {x y : A} → ◌≡◌ {A = Result E A} (ok x) (ok y) → x ≡ y
ok_same h = cc

not_ok : {E A B : Type 0} {e : E} {x : A} → ◌≡◌ {A = Result E A} (err e) (ok x) → B
not_ok h = cc

ranged :
    (engine : Engine) (name : String) (anchor : RangeAnchor) (content source result : Text)
    → simulate_lines anchor content source ≡ ok result
    → (has_return result ≡ false)
      × ((target : String) (d : Disk) (raw : Text)
          → d target ≡ file raw
          → read_text raw ≡ source
          → apply_replace_range (unchecked engine) target name anchor content d
            ≡ (write target (file result) d, none))
unfolding simulate_lines apply_replace_range
ranged engine name anchor content source result h =
    elim (Option-cases (simulate_range anchor content (splitlines source))) [
      | inl e ↦ not_ok (rw (e, simulate_lines) at h)
      | inr (lines, e) ↦
          let (applied, are) =
            apply_range-simulate anchor content (splitlines source) lines e
              (splitlines-AreLines source) in
          let same = ok_same (rw (e, simulate_lines) at h) in
          (
            ap has_return (sym same) ∙ join-has_return lines are,
            λ target d raw i is.
                let read = sym (splitlines-read_text raw) ∙ ap splitlines is in
                elim (Bool-cases (is_python name)) [
                  | inl py ↦ rw (i, read, applied, py, same, apply_replace_range)
                  | inr py ↦ rw (i, read, applied, py, same, apply_replace_range)
                ],
          )
    ]

-- An edit that goes well gives the source behind it.
edited :
    (r : Result PatchFailureCode Text) (updated : Option Text)
    → ◌≡◌ {A = Result PatchFailureCode (Option Text)}
        (elim r [ err code ↦ err code | ok t ↦ ok (some t) ])
        (ok updated)
    → (t : Text) × (r ≡ ok t) × (updated ≡ some t)
edited (ok t) updated h = (t, refl, sym (ok_same h))
edited (err code) updated h = cc

rewritten :
    (target : String) (d : Disk) (make : Text → Result OpError Text) (raw source result : Text)
    → d target ≡ file raw
    → read_text raw ≡ source
    → make source ≡ ok result
    → rewrite target d make ≡ (write target (file result) d, none)
rewritten target d make raw source result i is m = rw (i, is, m)

-- What is searched and replaced stays without carriage returns.
searched-has_return :
    (mutated : Bool) (search replace source result : Text)
    → simulate_search mutated search replace source ≡ ok result
    → has_return replace ≡ false
    → has_return source ≡ false
    → has_return result ≡ false
unfolding simulate_search
searched-has_return mutated search replace source result h n k =
    ground (arith, h, replace_first-has_return search replace source n k)

pub simulate-Edited :
    (engine : Engine) (parsers : Parsers) (op : PatchOperationV2) (mutated : Bool)
    (original current updated : Option Text)
    → IsTextEdit op
    → simulate parsers mutated original op current ≡ ok updated
    → Edited engine parsers op current updated
unfolding simulate simulate_edit apply_at
simulate-Edited engine parsers (search_replace n s r) mutated original (some source) updated t h =
    let (result, made, same) = edited (simulate_search mutated s r source) updated h in
    record {
      source = source;
      before = refl;
      result = result;
      behind = same;
      plain = searched-has_return mutated s r source result made t;
      written = λ target d raw i is.
          rewritten target d (apply_search_replace s r) raw source result i is
            (searched mutated s r source result made);
    }
simulate-Edited engine parsers (replace_lines n a c) mutated original (some source) updated t h =
    let (result, made, same) = edited (simulate_lines a c source) updated h in
    record {
      source = source;
      before = refl;
      result = result;
      behind = same;
      plain = λ h. (ranged engine n a c source result made).0;
      written = λ target d raw i is.
          rw ((ranged engine n a c source result made).1 target d raw i is, apply_at);
    }
simulate-Edited engine parsers (search_replace n s r) mutated original none updated t h = cc
simulate-Edited engine parsers (replace_lines n a c) mutated original none updated t h = cc
simulate-Edited engine parsers _ mutated original current updated t h = elim t [ ]
