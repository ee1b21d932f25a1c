-- ===== src/Candidate/Rounds.antt =====
-- The rounds of the loop of `preflight_patch_candidate` that leave no issue (patch/engine.py).
use shadow_forge.Base.{
  ℕ, ◌+◌, ◌≡◌, refl, sym, ◌∙◌, inl, inr, String, Bool, true, false, not, ◌||◌, List, [], ◌∷◌, ◌++◌,
  Option, some, arith, Bool-cases, Option-cases, if◌then◌else◌, has_name, lookup, Result, ok, err,
  map,
}
use shadow_forge.Text.{Text, codes}
use shadow_forge.Policy.{PatchPolicyViolation, validate_paths}
use shadow_forge.Disk.{Node, Disk}
use shadow_forge.Patch.{PatchFailureCode, file_missing, policy_violation, PatchPreflightIssue}
use shadow_forge.Patch.Simulate.{Engine}
use shadow_forge.Patch.Preflight.{out_of_scope, no_issues, refused}
use shadow_forge.Candidate.{PatchOperationV2, file_of, Parsers}
use shadow_forge.Candidate.Preflight.{
  Simulation, fresh_simulation, with_source, simulated_as, finished, simulate_step, preflight_op,
  preflight_ops, check_files, checked, node_op_files, simulated, preflight_patch_candidate,
}

snoc_not_nil : {A B : Type 0} (xs : List A) (x : A) → xs ++ x ∷ [] ≡ [] → B
snoc_not_nil [] x h = cc
snoc_not_nil (y ∷ ys) x h = cc

-- A round that leaves no issue: the file is read, and the operation is simulated.
pub record Passed (engine : Engine) (parsers : Parsers) (disk : Disk) (index : ℕ)
    (op : PatchOperationV2) (sim final : Simulation) : Type 0 where
  pub target : String
  pub inside : engine.layout.resolve_inside (file_of op) ≡ some target
  pub read : Simulation
  pub ready : with_source (disk target) (file_of op) sim ≡ some read
  pub updated : Option Text
  pub made : simulated_as parsers op read ≡ ok updated
  pub after : final ≡ finished index op read (ok updated)
  pub clean : sim.issues ≡ []

with_source_issues :
    (node : Node) (name : String) (sim read : Simulation)
    → with_source node name sim ≡ some read
    → read.issues ≡ sim.issues
unfolding with_source
with_source_issues node name sim read h = ground arith

module _ (engine : Engine) (parsers : Parsers) (allowed : Option (List String)) (disk : Disk) where
  stepped :
      (index : ℕ) (op : PatchOperationV2) (target : String) (sim read : Simulation)
      → engine.layout.resolve_inside (file_of op) ≡ some target
      → with_source (disk target) (file_of op) sim ≡ some read
      → (r : Result PatchFailureCode (Option Text)) → simulated_as parsers op read ≡ r
      → (finished index op read r).issues ≡ []
      → Passed engine parsers disk index op sim (finished index op read r)
  stepped index op target sim read i w (err code) m h = snoc_not_nil read.issues _ h
  stepped index op target sim read i w (ok updated) m h = record {
    target = target;
    inside = i;
    read = read;
    ready = w;
    updated = updated;
    made = m;
    after = refl;
    clean = sym (with_source_issues _ _ sim read w) ∙ h;
  }

  pub round-Passed :
      (index : ℕ) (op : PatchOperationV2) (sim : Simulation)
      → (preflight_op engine parsers allowed disk index op sim).issues ≡ []
      → Passed engine parsers disk index op sim
          (preflight_op engine parsers allowed disk index op sim)
  unfolding preflight_op simulate_step
  round-Passed index op sim h = elim (Bool-cases (out_of_scope allowed (file_of op))) [
    | inl e ↦ snoc_not_nil sim.issues _ (rw (e, preflight_op) at h)
    | inr e ↦ elim (Option-cases (engine.layout.resolve_inside (file_of op))) [
      | inl i ↦ snoc_not_nil sim.issues _ (rw (e, i, preflight_op) at h)
      | inr (target, i) ↦ elim (Option-cases (with_source (disk target) (file_of op) sim)) [
        | inl w ↦ snoc_not_nil sim.issues _ (rw (e, i, w, preflight_op) at h)
        | inr (read, w) ↦
            rw (e, i, w, preflight_op)
              (stepped index op target sim read i w _ refl (rw (e, i, w, preflight_op) at h))
      ]
    ]
  ]

  pub ops_clean :
      (ops : List PatchOperationV2) (index : ℕ) (sim : Simulation)
      → (preflight_ops engine parsers allowed disk index ops sim).issues ≡ []
      → sim.issues ≡ []
  unfolding preflight_ops
  ops_clean [] index sim h = h
  ops_clean (op ∷ ops) index sim h =
      (round-Passed index op sim
        (ops_clean ops (index + 1) (preflight_op engine parsers allowed disk index op sim) h)).clean

check_files_clean :
    (engine : Engine) (skipped names : List String) (sim : Simulation)
    → (check_files engine skipped names sim).issues ≡ []
    → sim.issues ≡ []
unfolding check_files
check_files_clean engine skipped [] sim h = h
check_files_clean engine skipped (name ∷ names) sim h =
    elim (Bool-cases
      (has_name name skipped || checked engine name (lookup name sim.simulated_sources))) [
        | inl e ↦ check_files_clean engine skipped names sim (rw (e, check_files) at h)
        | inr e ↦
            snoc_not_nil sim.issues _
              (check_files_clean engine skipped names _ (rw (e, check_files) at h))
      ]

no_issues_nil : (issues : List PatchPreflightIssue) → no_issues issues ≡ true → issues ≡ []
no_issues_nil [] h = refl
no_issues_nil (i ∷ is) h = cc

reported :
    (b : Bool) (v : Result PatchPolicyViolation (Unit {0})) (found : List PatchPreflightIssue)
    → (if not b then refused file_missing else elim v [
      | err e ↦ refused policy_violation
      | ok u ↦ record { success = no_issues found; issues = found }
    ]).success
      ≡ true
    → found ≡ []
reported false v found h = cc
reported true (err e) found h = cc
reported true (ok u) found h = no_issues_nil found h

-- A candidate with no issue leaves none in its rounds either.
pub success_clean :
    (engine : Engine) (parsers : Parsers) (disk : Disk) (ops : List PatchOperationV2)
    (allowed : Option (List String))
    → (preflight_patch_candidate engine parsers disk ops allowed).success ≡ true
    → (preflight_ops engine parsers allowed disk 0 ops fresh_simulation).issues ≡ []
unfolding preflight_patch_candidate simulated
success_clean engine parsers disk ops allowed h =
    let sim = simulated engine parsers disk ops allowed in
    check_files_clean engine (node_op_files ops) sim.mutated_files sim (
      reported engine.base_is_dir
        (validate_paths engine.patterns (map (λ op. codes (file_of op)) ops)) _ h)
