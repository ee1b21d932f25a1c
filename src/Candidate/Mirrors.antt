-- ===== src/Candidate/Mirrors.antt =====
-- The disk follows the simulation of a candidate of text edits (patch/engine.py,
-- `preflight_patch_candidate` and `apply_patch_candidate`).
use mathlib.Core.Path.{subst}
use text.Mathlib.TextPositions.{eq_refl}
use shadow_forge.Base.{
  ℕ, ◌+◌, ◌≡◌, refl, sym, ap, ◌∙◌, inl, inr, ◌⊎◌, String, Bool, true, false, List, [], ◌∷◌, Option,
  none, some, arith, Bool-cases, Option-cases, All, has_name, lookup, insert, lookup-insert, str_eq,
  eq_iff, Result, ok, map,
}
use shadow_forge.Text.{Text, read_text}
use shadow_forge.Text.Newlines.{has_return, read_text-has_return, read_text_plain}
use shadow_forge.Disk.{Node, missing, file, Disk, write}
use shadow_forge.Patch.Simulate.{Engine}
use shadow_forge.Patch.Apply.{insert_name}
use shadow_forge.Candidate.{PatchOperationV2, file_of, Parsers}
use shadow_forge.Candidate.Preflight.{
  Simulation, fresh_simulation, flat, loaded, with_source, simulated_as, preflight_op,
  preflight_ops, preflight_patch_candidate, finished,
}
use shadow_forge.Candidate.Apply.{
  apply_op, Progress, settled, apply_ops, fresh_progress, verdict, apply_patch_candidate,
  CandidateError,
}
use shadow_forge.Candidate.Rounds.{Passed, round-Passed, ops_clean, success_clean}
use shadow_forge.Candidate.Edits.{IsTextEdit, simulate-Edited}

-- What stands at a path, by whether the file has been written, what is simulated of it, and what
-- stood there at first. A file that has been written holds what is simulated; one that has only been
-- read is as it was, and reads so.
abbrev pub Mirror : Bool → Option (Option Text) → Node → Node → Type 0
Mirror true none first now = ⊥
Mirror true (some none) first now = ⊥
Mirror true (some (some source)) first now = (has_return source ≡ false) × (now ≡ file source)
Mirror false none first now = now ≡ first
Mirror false (some none) first now = now ≡ missing
Mirror false (some (some source)) first now =
    (has_return source ≡ false) × (raw : Text) × (now ≡ file raw) × (read_text raw ≡ source)

-- Each of the files is as what is simulated of it says; some have been written.
abbrev pub Mirrors : Engine → Disk → List String → List String → Simulation → Disk → Type 0
Mirrors engine first names written sim now =
    (n t : String)
    → has_name n names ≡ true
    → engine.layout.resolve_inside n ≡ some t
    → Mirror (has_name n written) (lookup n sim.simulated_sources) (first t) (now t)

-- A file that holds or reads as a simulated text.
reads :
    (b : Bool) (source : Text) (first now : Node)
    → Mirror b (some (some source)) first now
    → (has_return source ≡ false) × (raw : Text) × (now ≡ file raw) × (read_text raw ≡ source)
reads true source first now (plain, e) = (plain, source, e, read_text_plain source plain)
reads false source first now h = h

-- Different names among these are different files.
abbrev pub AreDistinct : Engine → List String → Type 0
AreDistinct engine names =
    (m n t : String)
    → has_name m names ≡ true
    → has_name n names ≡ true
    → engine.layout.resolve_inside m ≡ some t
    → engine.layout.resolve_inside n ≡ some t
    → m ≡ n

some_same : {A : Type 0} {x y : A} → some x ≡ some y → x ≡ y
some_same h = cc

str_same : (s t : String) → str_eq s t ≡ true → s ≡ t
str_same s t h = ground (arith, eq_iff s t)

loaded-Mirror :
    (b : Bool) (first now : Node) (current : Option Text)
    → loaded first ≡ some current
    → Mirror b none first now
    → Mirror b (some current) first now
unfolding loaded
loaded-Mirror true first now current l e = absurd e
loaded-Mirror false missing now none l e = e
loaded-Mirror false (file t) now (some s) l e =
    let is = flat_same l in (ap has_return (sym is) ∙ read_text-has_return t, t, e, is)
  where
    flat_same : {x y : Text} → some (some x) ≡ some (some y) → x ≡ y
    flat_same h = cc
loaded-Mirror false _ now current l e = cc

none_some : {A B : Type 0} {x : A} → none ≡ some x → B
none_some h = cc

false_true : {B : Type 0} → false ≡ true → B
false_true h = cc

flat-some : (o : Option (Option Text)) (s : Text) → flat o ≡ some s → o ≡ some (some s)
flat-some none s h = cc
flat-some (some none) s h = cc
flat-some (some (some t)) s h = cc

-- The names are touched one after the other.
abbrev pub touched_from : List PatchOperationV2 → List String → List String
touched_from [] acc = acc
touched_from (op ∷ ops) acc = touched_from ops (insert_name (file_of op) acc)

-- The files that have been written behind the operations.
abbrev pub written_from : List PatchOperationV2 → List String → List String
written_from [] written = written
written_from (op ∷ ops) written = written_from ops (file_of op ∷ written)

module _ (engine : Engine) (parsers : Parsers) (first : Disk) (names : List String) where
  inserted-Mirrors :
      (name target : String) (current : Option Text) (written : List String) (sim next : Simulation)
      (now : Disk)
      → next.simulated_sources ≡ insert name current sim.simulated_sources
      → engine.layout.resolve_inside name ≡ some target
      → loaded (first target) ≡ some current
      → lookup name sim.simulated_sources ≡ none
      → Mirrors engine first names written sim now
      → Mirrors engine first names written next now
  inserted-Mirrors name target current written sim next now s i l e m n t h j =
      elim (Bool-cases (str_eq name n)) [
        | inl same ↦
            let is = str_same name n same in
            let path = some_same (sym i ∙ ap (λ x. engine.layout.resolve_inside x) is ∙ j) in
            let none_there = ap (λ x. lookup x sim.simulated_sources) (sym is) ∙ e in
            rw (s, lookup-insert, same)
              (loaded-Mirror (has_name n written) (first t) (now t) current
                (subst (λ x. loaded (first x) ≡ some current) path l)
                (subst (λ o. Mirror (has_name n written) o (first t) (now t)) none_there
                  (m n t h j)))
        | inr other ↦ rw (s, lookup-insert, other) (m n t h j)
      ]

  read-Mirrors :
      (name target : String) (written : List String) (sim read : Simulation) (now : Disk)
      → engine.layout.resolve_inside name ≡ some target
      → with_source (first target) name sim ≡ some read
      → Mirrors engine first names written sim now
      → Mirrors engine first names written read now
  unfolding with_source
  read-Mirrors name target written sim read now i w m =
      elim (Option-cases (lookup name sim.simulated_sources)) [
        | inr (c, e) ↦
            subst (λ s. Mirrors engine first names written s now)
              (some_same (rw (e, with_source) at w)) m
        | inl e ↦ elim (Option-cases (loaded (first target))) [
          | inl l ↦ none_some (rw (e, l, with_source) at w)
          | inr (current, l) ↦
              inserted-Mirrors name target current written sim read now
                (sym (ap (λ s. s.simulated_sources) (some_same (rw (e, l, with_source) at w)))) i l
                e m
        ]
      ]

  written-Mirrors :
      AreDistinct engine names
      → (index : ℕ) (op : PatchOperationV2) (target : String) (written : List String)
        (read : Simulation) (updated : Option Text) (result : Text) (now : Disk)
      → has_name (file_of op) names ≡ true
      → engine.layout.resolve_inside (file_of op) ≡ some target
      → updated ≡ some result
      → has_return result ≡ false
      → Mirrors engine first names written read now
      → Mirrors engine first names
          (file_of op ∷ written)
          (finished index op read (ok updated))
          (write target (file result) now)
  written-Mirrors distinct index op target written read updated result now k i u plain m n t h j =
      elim (Bool-cases (str_eq (file_of op) n)) [
        | inl same ↦
            let is = str_same (file_of op) n same in
            let path = some_same (sym i ∙ ap (λ x. engine.layout.resolve_inside x) is ∙ j) in
            rw (lookup-insert, same, u, path, eq_refl) (plain, refl)
        | inr other ↦ elim (Bool-cases (str_eq target t)) [
          | inl same ↦
              let path = str_same target t same in
              let is = distinct (file_of op) n t k h (i ∙ ap some path) j in
              false_true
                (sym other ∙ ap (λ x. str_eq (file_of op) x) (sym is) ∙ eq_refl (file_of op))
          | inr apart ↦ rw (lookup-insert, other, apart) (m n t h j)
        ]
      ]

  -- How far the application has come, with no error.
  abbrev Done : List String → Simulation → List String → Progress → Type 0
  Done written sim acc p =
      Mirrors engine first names written sim p.disk
      × (p.incremental_errors ≡ [])
      × (p.touched ≡ acc)

  abbrev Named : PatchOperationV2 → Type 0
  Named op = has_name (file_of op) names ≡ true

  settled-Done :
      AreDistinct engine names
      → (index : ℕ) (op : PatchOperationV2) (sim final : Simulation) (written acc : List String)
        (p : Progress)
      → IsTextEdit op
      → Named op
      → Passed engine parsers first index op sim final
      → Done written sim acc p
      → Done
          (file_of op ∷ written)
          final
          (insert_name (file_of op) acc)
          (settled none op p (apply_op engine parsers op p.disk))
  unfolding apply_op simulated_as
  settled-Done distinct index op sim final written acc p t k passed (m, e, a) =
      let target = passed.target in
      let read =
        read-Mirrors (file_of op) target written sim passed.read p.disk passed.inside passed.ready
          m in
      let edit =
        simulate-Edited engine parsers op (has_name (file_of op) passed.read.mutated_files)
          (flat (lookup (file_of op) passed.read.original_sources)) _ passed.updated t
          passed.made in
      let (plain, raw, held, is) =
        reads (has_name (file_of op) written) edit.source (first target) (p.disk target) (
          subst (λ o. Mirror (has_name (file_of op) written) o (first target) (p.disk target))
            (flat-some _ edit.source edit.before) (read (file_of op) target k passed.inside)) in
      let next =
        written-Mirrors distinct index op target written passed.read passed.updated edit.result
          p.disk k passed.inside edit.behind (edit.plain plain) read in
      let went : apply_op engine parsers op p.disk
          ≡ (write target (file edit.result) p.disk, none) =
        rw (passed.inside, apply_op) (edit.written target p.disk raw held is) in
      subst
        (λ r.
          Done (file_of op ∷ written) final (insert_name (file_of op) acc) (settled none op p r))
        (sym went)
        (
          subst
              (λ s.
                Mirrors engine first names (file_of op ∷ written) s
                  (write target (file edit.result) p.disk))
              (sym passed.after) next,
          rw e,
          rw a,
        )

  ops-Done :
      AreDistinct engine names
      → (allowed : Option (List String)) (ops : List PatchOperationV2) (index : ℕ)
        (sim : Simulation) (written acc : List String) (p : Progress)
      → All IsTextEdit ops
      → All Named ops
      → (preflight_ops engine parsers allowed first index ops sim).issues ≡ []
      → Done written sim acc p
      → Done
          (written_from ops written)
          (preflight_ops engine parsers allowed first index ops sim)
          (touched_from ops acc)
          (apply_ops engine parsers none ops p)
  unfolding preflight_ops apply_ops
  ops-Done distinct allowed [] index sim written acc p t k h d = d
  ops-Done distinct allowed (op ∷ ops) index sim written acc p t k h d =
      let next = preflight_op engine parsers allowed first index op sim in
      let clean = ops_clean engine parsers allowed first ops (index + 1) next h in
      ops-Done distinct allowed ops (index + 1) next (file_of op ∷ written)
        (insert_name (file_of op) acc) _ t.1 k.1 h
        (settled-Done distinct index op sim next written acc p t.0 k.0
          (round-Passed engine parsers allowed first index op sim clean) d)

named_more :
    (y : String) (names : List String) (ops : List PatchOperationV2)
    → All (λ o. has_name (file_of o) names ≡ true) ops
    → All (λ o. has_name (file_of o) (y ∷ names) ≡ true) ops
named_more y names [] h = tt
named_more y names (op ∷ ops) h = (ground arith, named_more y names ops h.1)

All-named :
    (ops : List PatchOperationV2) → All (λ o. has_name (file_of o) (map file_of ops) ≡ true) ops
All-named [] = tt
All-named (op ∷ ops) = (rw eq_refl, named_more (file_of op) (map file_of ops) ops (All-named ops))

written_all :
    (n : String) (ops : List PatchOperationV2) (written : List String)
    → (has_name n written ≡ true) ⊎ (has_name n (map file_of ops) ≡ true)
    → has_name n (written_from ops written) ≡ true
written_all n [] written (inl h) = h
written_all n [] written (inr h) = cc
written_all n (op ∷ ops) written (inl h) =
    written_all n ops (file_of op ∷ written) (inl (ground (arith, h)))
written_all n (op ∷ ops) written (inr h) = elim (Bool-cases (str_eq (file_of op) n)) [
  | inl e ↦ written_all n ops (file_of op ∷ written) (inl (rw e))
  | inr e ↦ written_all n ops (file_of op ∷ written) (inr (rw e at h))
]

-- How an application ends that was simulated so: it succeeds and names the touched files, and each
-- file of the candidate holds what the simulation ended with.
abbrev pub IsMirrored :
    Engine
    → Simulation
    → List PatchOperationV2
    → Disk × Result CandidateError (List String)
    → Type 0
IsMirrored engine final ops (now, result) =
    ((n t : String)
      → has_name n (map file_of ops) ≡ true
      → engine.layout.resolve_inside n ≡ some t
      → (source : Text) × (lookup n final.simulated_sources ≡ some (some source))
        × (now t ≡ file source))
    × (result ≡ ok (touched_from ops []))

held_text :
    (b : Bool) (o : Option (Option Text)) (first now : Node)
    → b ≡ true
    → Mirror b o first now
    → (source : Text) × (o ≡ some (some source)) × (now ≡ file source)
held_text true none first now e h = absurd h
held_text true (some none) first now e h = absurd h
held_text true (some (some source)) first now e h = (source, refl, h.1)
held_text false o first now e h = cc

-- If a candidate replaces texts and ranges of lines only, no replacement holds a carriage return,
-- its names are distinct files, and the preflight check reports success, then with no validator the
-- application succeeds, names the touched files, and every file of the candidate holds exactly the
-- text with which the simulation ended, also where several operations edit one file and where the
-- files hold carriage returns, which text mode reads as newlines.
pub apply_patch_candidate-IsMirrored :
    (engine : Engine) (parsers : Parsers) (disk : Disk) (ops : List PatchOperationV2)
    (allowed : Option (List String))
    → All IsTextEdit ops
    → AreDistinct engine (map file_of ops)
    → (preflight_patch_candidate engine parsers disk ops allowed).success ≡ true
    → IsMirrored engine
        (preflight_ops engine parsers allowed disk 0 ops fresh_simulation)
        ops
        (apply_patch_candidate engine parsers none disk ops allowed)
unfolding apply_patch_candidate lookup
apply_patch_candidate-IsMirrored engine parsers disk ops allowed t distinct h =
    let done = apply_ops engine parsers none ops (fresh_progress disk) in
    let (m, e, a) =
      ops-Done engine parsers disk (map file_of ops) distinct allowed ops 0 fresh_simulation [] []
        (fresh_progress disk) t (All-named ops) (success_clean engine parsers disk ops allowed h)
        (λ n t k i. refl, refl, refl) in
    rw h (
      (λ n t k i.
          held_text (has_name n (written_from ops [])) _ (disk t) (done.disk t)
            (written_all n ops [] (inr k)) (m n t k i)),
      ap (λ es. verdict es done.touched) e ∙ ap (λ names. ok names) a,
    )
