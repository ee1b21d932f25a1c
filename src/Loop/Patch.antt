-- ===== src/Loop/Patch.antt =====
-- The branch of `emit_patch` (tools/loop.py, `run`, `_apply_patch_inline` and
-- `_flush_pending_install`).
pub mod Follows
use shadow_forge.Base.{
  Bool, true, false, ◌&&◌, List, [], ◌∷◌, ◌++◌, Option, none, some, if◌then◌else◌, Result, ok, err,
  map, String,
}
use shadow_forge.Text.{Text, codes}
use shadow_forge.Env.{maybe_run_pending_install, resolve_manifest_scope_key}
use shadow_forge.Verify.{
  VerifyPhaseEvent, VerifyPhaseStateMachine, VerifyPhaseError, exhausted, patch_failed,
  postpatch_clean, postpatch_blocking, transition, check_patch_dedup, record_patch_attempt,
  PatchKey,
}
use shadow_forge.Verify
use shadow_forge.Loop.{
  RawOp, Response, ScopeDecision, Feedback, Entry, assistant_turn, rejected_turn, told,
  duplicate_patch, failed_after_extension, scope_refused, patch_refused, applied, LoopEvent,
  failed_patch, applied_patch, installed, TestOutput, no_output, retries_exhausted, StepOutcome,
  verify_result, tool_budget_exceeded, invalid_transition, Collaborators, Settings, LoopState, Next,
  again, finished, raised, append_missing, build_patch_key, op_files, extract_out_of_scope_files,
  is_scope_error,
}

abbrev pub verdict : Bool → VerifyPhaseEvent
verdict clean =
    if clean then VerifyPhaseEvent.postpatch_clean else VerifyPhaseEvent.postpatch_blocking

module _ {World Candidate Baseline : Type 0} (C : Collaborators World Candidate Baseline)
    (S : Settings) where
  abbrev pub State : Type 0
  State = LoopState World Baseline

  abbrev pub Outcome : Type 0
  Outcome = Next World Baseline

  pub run_install : State → State
  run_install st =
      let (world, (changed, events)) =
        maybe_run_pending_install C.installer st.pending_install_for_scope st.world in
      record st {
        world = world;
        all_touched_files = append_missing st.all_touched_files changed;
        events = st.events ++ map installed events;
        pending_install_for_scope = none;
      }

  -- A pending install runs if both roots are there, and is forgotten if not.
  unfoldable pub flush_pending_install : State → State
  unfolding run_install
  flush_pending_install st = elim st.pending_install_for_scope [
    | none ↦ st
    | some key ↦
        if S.has_shadow_root && S.has_real_root
        then run_install st
        else record st { pending_install_for_scope = none }
  ]

  pub apply_patch_inline : List RawOp → List String → World → World × Result Text (List String)
  apply_patch_inline ops targets world = elim (C.model_validate ops) [
    | err e ↦ (world, err (codes "Invalid patch document: " ++ e))
    | ok candidates ↦ elim candidates [
      | [] ↦ (world, err (codes "No candidates in patch document"))
      | candidate ∷ others ↦ C.apply_patch_candidate world candidate targets
    ]
  ]

  abbrev pub tell : Feedback → State → State
  tell feedback st = record st { history = st.history ++ told feedback ∷ [] }

  -- A turn that is not carried out: the history keeps an empty reply in place of the response.
  abbrev pub reject : Feedback → State → Outcome
  reject feedback st =
      again (record st { history = st.history ++ rejected_turn ∷ told feedback ∷ [] })

  -- The exceptions of the machine: exhaustion ends the step, any other passes through.
  after_failure : VerifyPhaseStateMachine → Option VerifyPhaseError → State → Outcome
  after_failure sm none st = again (record st { sm = sm })
  after_failure sm (some exhausted) st =
      let stopped = record st { sm = sm } in
      finished
        (verify_result st.last_patch_document st.all_touched_files false retries_exhausted ""
          st.calls)
        stopped
  after_failure sm (some (Verify.invalid_transition state event)) st =
      raised invalid_transition (record st { sm = sm })

  -- The event PATCH_FAILED behind its feedback.
  pub fail_patch : Feedback → Text → State → Outcome
  unfolding after_failure
  fail_patch feedback error st =
      let (sm, exception) = transition st.sm patch_failed in
      after_failure sm exception (record st {
        history = st.history ++ told feedback ∷ [];
        events = st.events ++ failed_patch error ∷ [];
      })

  -- The end of a successful patch.
  after_analysis : Option VerifyPhaseError → State → Outcome
  unfolding flush_pending_install
  after_analysis (some exception) st = raised invalid_transition st
  after_analysis none st =
      if S.skip_verify
      then (let flushed = flush_pending_install st in
          finished
            (verify_result flushed.last_patch_document flushed.all_touched_files true no_output ""
              flushed.calls)
            flushed)
      else again st

  -- The fingerprints from before the patch, collected once.
  pub baseline_of : World → State → Option Baseline
  baseline_of world st = elim st.postpatch_baseline [
    | some baseline ↦ some baseline
    | none ↦ if S.has_real_root then some (C.collect_baseline world st.all_touched_files) else none
  ]

  -- The event of the analyzer's verdict.
  pub settle_patch : List RawOp → World → Text → Bool → Option Baseline → State → Outcome
  unfolding after_analysis
  settle_patch ops world auto_checks clean baseline st =
      let (sm, exception) = transition st.sm (verdict clean) in
      after_analysis exception (record st {
        world = world;
        sm = sm;
        last_patch_document = some ops;
        postpatch_baseline = baseline;
        patch_succeeded_once = true;
        history = st.history ++ told (applied st.all_touched_files auto_checks) ∷ [];
        events = st.events ++ applied_patch st.all_touched_files ∷ [];
      })

  -- The shadow is read from now on, and analyzed if there is one.
  pub analyze_patch : List RawOp → State → Outcome
  unfolding settle_patch baseline_of
  analyze_patch ops st =
      let reading = C.use_shadow_for_reads st.world in
      let baseline = baseline_of reading st in
      let (world, (auto_checks, clean)) =
        if S.has_shadow_root
        then C.analyze reading st.all_touched_files baseline
        else (reading, ([], true)) in
      settle_patch ops world auto_checks clean baseline st

  -- The touched files are noted, and with them a manifest that has to be installed.
  pub note_touched : List String → State → State
  note_touched touched st = record st {
    all_touched_files = append_missing st.all_touched_files touched;
    pending_install_for_scope = elim S.env_profile [
      | none ↦ st.pending_install_for_scope
      | some ecosystems ↦ elim (resolve_manifest_scope_key touched ecosystems) [
        | some key ↦ some key
        | none ↦ st.pending_install_for_scope
      ]
    ];
  }

  -- The second attempt of a patch: a failure is reported as one behind the extension.
  after_extension : List RawOp → Result Text (List String) → State → Outcome
  unfolding fail_patch analyze_patch note_touched
  after_extension ops (ok touched) st = analyze_patch ops (note_touched touched st)
  after_extension ops (err error) st = fail_patch (failed_after_extension error) error st

  -- The patch again, with the targets that the decision adds.
  pub retry_extended : List RawOp → List String → State → Outcome
  unfolding apply_patch_inline after_extension
  retry_extended ops extended_files st =
      let targets = append_missing st.targets extended_files in
      let (world, result) = apply_patch_inline ops targets st.world in
      after_extension ops result (record st { targets = targets; world = world })

  -- A patch that the user does not admit stays in the state: the model has to change it.
  pub refuse_scope : Text → String → State → Outcome
  refuse_scope error reason st = again (record st {
    had_scope_violation = true;
    history = st.history ++ told (scope_refused error reason) ∷ [];
    events = st.events ++ failed_patch error ∷ [];
  })

  answer_scope : List RawOp → Text → ScopeDecision → State → Outcome
  unfolding retry_extended refuse_scope
  answer_scope ops error decision st =
      if decision.approve
      then retry_extended ops decision.extended_files st
      else refuse_scope error decision.reason st

  -- A patch of a file outside of the step: the user is asked.
  pub ask_scope : List RawOp → Text → String → State → Outcome
  unfolding answer_scope
  ask_scope ops error thought st =
      let (world, decision) =
        C.scope_extension_callback st.world (extract_out_of_scope_files error) thought in
      answer_scope ops error decision (record st { world = world })

  after_attempt : List RawOp → String → Result Text (List String) → State → Outcome
  unfolding ask_scope
  after_attempt ops thought (ok touched) st = analyze_patch ops (note_touched touched st)
  after_attempt ops thought (err error) st =
      if is_scope_error error
      then ask_scope ops error thought st
      else fail_patch (patch_refused error) error st

  pub apply_patch : List RawOp → String → State → Outcome
  unfolding after_attempt
  apply_patch ops thought st =
      let (world, result) = apply_patch_inline ops st.targets st.world in
      after_attempt ops thought result (record st { world = world })

  -- The attempt is recorded, and the response stands in the history.
  pub record_attempt : List RawOp → Response → State → State
  record_attempt ops response st = record st {
    sm = record_patch_attempt st.sm (build_patch_key ops);
    history = st.history ++ assistant_turn response ∷ [];
  }

  note_op_files : List RawOp → State → State
  note_op_files ops st = record st {
    all_touched_files = append_missing st.all_touched_files (op_files ops);
  }

  -- With no patch engine the files that the ops name count as touched.
  pub attempt_patch : List RawOp → Response → State → Outcome
  unfolding apply_patch record_attempt note_op_files
  attempt_patch ops response st =
      let attempted = record_attempt ops response st in
      if S.has_patch_engine && S.has_shadow_path
      then apply_patch ops response.thought attempted
      else analyze_patch ops (note_op_files ops attempted)

  unfoldable pub emit_patch : Option (List RawOp) → Response → State → Outcome
  unfolding attempt_patch
  emit_patch none response st = raised tool_budget_exceeded st
  emit_patch (some ops) response st =
      if check_patch_dedup st.sm (build_patch_key ops)
      then reject duplicate_patch st
      else attempt_patch ops response st
