-- ===== src/Loop/Patch/Follows.antt =====
-- Every end of the branch of `emit_patch` is a move of the loop's core, or one of the ends of a step.
use mathlib.Core.Path.{subst}
use shadow_forge.Base.{
  [], ◌∷◌, ◌++◌, ◌≡◌, refl, sym, ap, ◌∙◌, ◌≢◌, ◌⊎◌, inl, inr, Bool, true, false, ◌&&◌, List, Option,
  none, some, arith, Result, ok, err, String,
}
use shadow_forge.Text.{Text, codes}
use shadow_forge.Verify
use shadow_forge.Verify.{
  VerifyPhaseEvent, VerifyPhaseStateMachine, VerifyPhaseError, exhausted, PatchKey, transition,
  record_patch_attempt, patch_failed, check_patch_dedup,
}
use shadow_forge.Verify.Tools.{patch-transition, transition-exhausted}
use shadow_forge.Loop.{
  RawOp, Response, ScopeDecision, Feedback, Collaborators, Settings, retries_exhausted,
  build_patch_key, is_scope_error, append_missing,
}
use shadow_forge.Loop.Patch.{
  State, after_failure, fail_patch, after_analysis, analyze_patch, run_install,
  flush_pending_install, retry_extended, ask_scope, apply_patch, attempt_patch, emit_patch, verdict,
  settle_patch, note_touched, after_extension, refuse_scope, answer_scope, note_op_files,
  after_attempt, record_attempt, apply_patch_inline,
}
use shadow_forge.Loop.Moves.{
  Core, core, attempt, MayPatch, ◌⟶◌, stays, refused, fails, lands, unverified, gave_up, Follows,
  if-Follows,
}

not_both : false ≡ true → ⊥
not_both h = cc

verdict-is_patch :
    (clean : Bool)
    → (verdict clean ≡ patch_failed)
      ⊎ (verdict clean ≡ VerifyPhaseEvent.postpatch_blocking)
      ⊎ (verdict clean ≡ VerifyPhaseEvent.postpatch_clean)
verdict-is_patch true = inr (inr refl)
verdict-is_patch false = inr (inl refl)

verdict-ne : (clean : Bool) → verdict clean ≢ patch_failed
verdict-ne true h = cc
verdict-ne false h = cc

verdict-accepted :
    (c : Core) (key : PatchKey) (clean : Bool) (m : VerifyPhaseStateMachine)
    (ex : Option VerifyPhaseError)
    → MayPatch c
    → transition (record_patch_attempt c.sm key) (verdict clean) ≡ (m, ex)
    → ex ≡ none
verdict-accepted c key clean m none may t = refl
verdict-accepted c key clean m (some exhausted) may t = absurd (
    transition-exhausted (record_patch_attempt c.sm key) (verdict clean) (verdict-ne clean)
      (ap (λ r. r.1) t))
verdict-accepted c key clean m (some (Verify.invalid_transition s f)) may t =
    absurd
      (patch-transition c.sm key s (verdict clean) f may (verdict-is_patch clean) (ap (λ r. r.1) t))

module _ {World Candidate Baseline : Type 0} (C : Collaborators World Candidate Baseline)
    (S : Settings) where
  -- Where there is a patch engine and a shadow, the ops are a valid document, and the engine has
  -- applied its first candidate to some targets in some world, with success.
  abbrev pub WasApplied : List RawOp → Type 0
  WasApplied ops =
      (S.has_patch_engine && S.has_shadow_path) ≡ true
      → (candidate : Candidate) × (others : List Candidate) × (C.model_validate ops
          ≡ ok (candidate ∷ others))
        × (world : World) × (targets touched : List String) × ((C.apply_patch_candidate world
              candidate targets).1
            ≡ ok touched)

  inline_applied :
      (ops : List RawOp) (targets touched : List String) (world : World)
      → (apply_patch_inline C S ops targets world).1 ≡ ok touched
      → WasApplied ops
  unfolding apply_patch_inline
  inline_applied ops targets touched world h has = from (C.model_validate ops) refl h
    where
      from :
          (r : Result Text (List Candidate))
          → C.model_validate ops ≡ r
          → (elim r as (λ x. World × Result Text (List String)) [
            | err e ↦ (world, err (codes "Invalid patch document: " ++ e))
            | ok candidates ↦ elim candidates as (λ x. World × Result Text (List String)) [
              | [] ↦ (world, err (codes "No candidates in patch document"))
              | candidate ∷ others ↦ C.apply_patch_candidate world candidate targets
            ]
          ]).1
            ≡ ok touched
          → (candidate : Candidate) × (others : List Candidate) × (C.model_validate ops
              ≡ ok (candidate ∷ others))
            × (world : World) × (targets touched : List String) × ((C.apply_patch_candidate world
                  candidate targets).1
                ≡ ok touched)
      from (err e) v k = cc
      from (ok []) v k = cc
      from (ok (candidate ∷ others)) v k = (candidate, others, v, world, targets, touched, k)

  pub flush-core : (st : State C S) → core (flush_pending_install C S st) ≡ core st
  unfolding flush_pending_install run_install
  flush-core st = ground arith

  after_failure-Follows :
      (c : Core) (key : PatchKey) (sm : VerifyPhaseStateMachine) (ex : Option VerifyPhaseError)
      (st : State C S)
      → MayPatch c
      → transition (record_patch_attempt c.sm key) patch_failed ≡ (sm, ex)
      → core st ≡ attempt key c
      → Follows S WasApplied c (after_failure C S sm ex st)
  unfolding after_failure
  after_failure-Follows c key sm none st may t e =
      subst (λ (d : Core). ◌⟶◌ S WasApplied c (record d { sm = sm })) (sym e) (fails key sm may t)
  after_failure-Follows c key sm (some exhausted) st may t e =
      gave_up st.last_patch_document st.all_touched_files retries_exhausted st.calls
        (ap (λ (d : Core). d.calls) e)
  after_failure-Follows c key sm (some (Verify.invalid_transition s f)) st may t e =
      absurd (patch-transition c.sm key s patch_failed f may (inl refl) (ap (λ r. r.1) t))

  fail_patch-Follows :
      (c : Core) (key : PatchKey) (feedback : Feedback) (error : Text) (st : State C S)
      → MayPatch c
      → core st ≡ attempt key c
      → Follows S WasApplied c (fail_patch C S feedback error st)
  unfolding fail_patch
  fail_patch-Follows c key feedback error st may e =
      after_failure-Follows c key (transition st.sm patch_failed).0
        (transition st.sm patch_failed).1 _ may
        (ap (λ (d : Core). transition d.sm patch_failed) (sym e)) e

  after_analysis-Follows :
      (c : Core) (key : PatchKey) (ops : List RawOp) (clean : Bool) (sm : VerifyPhaseStateMachine)
      (ex : Option VerifyPhaseError) (st : State C S)
      → MayPatch c
      → WasApplied ops
      → transition (record_patch_attempt c.sm key) (verdict clean) ≡ (sm, ex)
      → core st ≡ record c { sm = sm; patched = true; document = some ops }
      → Follows S WasApplied c (after_analysis C S ex st)
  unfolding after_analysis
  after_analysis-Follows c key ops clean sm (some x) st may is t e =
      let h = verdict-accepted c key clean sm (some x) may t in cc
  after_analysis-Follows c key ops clean sm none st may is t e =
      let settled = flush-core st ∙ e in
      if-Follows S WasApplied c S.skip_verify _ _
        (λ skips.
          unverified _ ops _ _ skips may is (ap (λ (d : Core). d.document) settled)
            (ap (λ (d : Core). d.calls) settled))
        (λ verifies. subst (λ d. ◌⟶◌ S WasApplied c d) (sym e) (lands key ops sm clean may is t))

  settle_patch-Follows :
      (c : Core) (key : PatchKey) (ops : List RawOp) (world : World) (auto_checks : Text)
      (clean : Bool) (baseline : Option Baseline) (st : State C S)
      → MayPatch c
      → WasApplied ops
      → core st ≡ attempt key c
      → Follows S WasApplied c (settle_patch C S ops world auto_checks clean baseline st)
  unfolding settle_patch
  settle_patch-Follows c key ops world auto_checks clean baseline st may is e =
      let (sm, ex) = transition st.sm (verdict clean) in
      after_analysis-Follows c key ops clean sm ex _ may is
        (ap (λ (d : Core). transition d.sm (verdict clean)) (sym e))
        (ap (λ (d : Core). record d { sm = sm; patched = true; document = some ops }) e)

  analyze_patch-Follows :
      (c : Core) (key : PatchKey) (ops : List RawOp) (st : State C S)
      → MayPatch c
      → WasApplied ops
      → core st ≡ attempt key c
      → Follows S WasApplied c (analyze_patch C S ops st)
  unfolding analyze_patch
  analyze_patch-Follows c key ops st may is e = settle_patch-Follows c key ops _ _ _ _ st may is e

  land_patch-Follows :
      (c : Core) (key : PatchKey) (ops : List RawOp) (touched : List String) (st : State C S)
      → MayPatch c
      → WasApplied ops
      → core st ≡ attempt key c
      → Follows S WasApplied c (analyze_patch C S ops (note_touched C S touched st))
  unfolding note_touched
  land_patch-Follows c key ops touched st may is e =
      analyze_patch-Follows c key ops (note_touched C S touched st) may is e

  after_extension-Follows :
      (c : Core) (key : PatchKey) (ops : List RawOp) (result : Result Text (List String))
      (st : State C S)
      → MayPatch c
      → ((touched : List String) → result ≡ ok touched → WasApplied ops)
      → core st ≡ attempt key c
      → Follows S WasApplied c (after_extension C S ops result st)
  unfolding after_extension
  after_extension-Follows c key ops (ok touched) st may is e =
      land_patch-Follows c key ops touched st may (is touched refl) e
  after_extension-Follows c key ops (err error) st may is e =
      fail_patch-Follows c key _ error st may e

  retry_extended-Follows :
      (c : Core) (key : PatchKey) (ops : List RawOp) (extended : List String) (st : State C S)
      → MayPatch c
      → core st ≡ attempt key c
      → Follows S WasApplied c (retry_extended C S ops extended st)
  unfolding retry_extended
  retry_extended-Follows c key ops extended st may e =
      let targets = append_missing st.targets extended in
      after_extension-Follows c key ops _ _ may
        (λ touched made. inline_applied ops targets touched st.world made) e

  answer_scope-Follows :
      (c : Core) (key : PatchKey) (ops : List RawOp) (error : Text) (decision : ScopeDecision)
      (st : State C S)
      → MayPatch c
      → core st ≡ attempt key c
      → Follows S WasApplied c (answer_scope C S ops error decision st)
  unfolding answer_scope refuse_scope
  answer_scope-Follows c key ops error decision st may e =
      if-Follows S WasApplied c decision.approve _ _
        (λ h. retry_extended-Follows c key ops decision.extended_files st may e)
        (λ h. subst (λ d. ◌⟶◌ S WasApplied c d) (sym e) (refused key may))

  ask_scope-Follows :
      (c : Core) (key : PatchKey) (ops : List RawOp) (error : Text) (thought : String)
      (st : State C S)
      → MayPatch c
      → core st ≡ attempt key c
      → Follows S WasApplied c (ask_scope C S ops error thought st)
  unfolding ask_scope
  ask_scope-Follows c key ops error thought st may e =
      answer_scope-Follows c key ops error _ _ may e

  after_attempt-Follows :
      (c : Core) (key : PatchKey) (ops : List RawOp) (thought : String)
      (result : Result Text (List String)) (st : State C S)
      → MayPatch c
      → ((touched : List String) → result ≡ ok touched → WasApplied ops)
      → core st ≡ attempt key c
      → Follows S WasApplied c (after_attempt C S ops thought result st)
  unfolding after_attempt
  after_attempt-Follows c key ops thought (ok touched) st may is e =
      land_patch-Follows c key ops touched st may (is touched refl) e
  after_attempt-Follows c key ops thought (err error) st may is e =
      if-Follows S WasApplied c (is_scope_error error) _ _
        (λ h. ask_scope-Follows c key ops error thought st may e)
        (λ h. fail_patch-Follows c key _ error st may e)

  apply_patch-Follows :
      (c : Core) (key : PatchKey) (ops : List RawOp) (thought : String) (st : State C S)
      → MayPatch c
      → core st ≡ attempt key c
      → Follows S WasApplied c (apply_patch C S ops thought st)
  unfolding apply_patch
  apply_patch-Follows c key ops thought st may e =
      after_attempt-Follows c key ops thought _ _ may
        (λ touched made. inline_applied ops st.targets touched st.world made) e

  attempt_patch-Follows :
      (ops : List RawOp) (response : Response) (st : State C S)
      → MayPatch (core st)
      → Follows S WasApplied (core st) (attempt_patch C S ops response st)
  unfolding attempt_patch record_attempt note_op_files
  attempt_patch-Follows ops response st may =
      let attempted = record_attempt C S ops response st in
      if-Follows S WasApplied (core st) (S.has_patch_engine && S.has_shadow_path) _ _
        (λ h.
          apply_patch-Follows (core st) (build_patch_key ops) ops response.thought attempted may
            refl)
        (λ h.
          analyze_patch-Follows (core st) (build_patch_key ops) ops
            (note_op_files C S ops attempted) may (λ has. absurd (not_both (sym h ∙ has))) refl)

  pub emit_patch-Follows :
      (ops : Option (List RawOp)) (response : Response) (st : State C S)
      → MayPatch (core st)
      → Follows S WasApplied (core st) (emit_patch C S ops response st)
  unfolding emit_patch
  emit_patch-Follows none response st may = λ h. cc
  emit_patch-Follows (some ops) response st may =
      if-Follows S WasApplied (core st) (check_patch_dedup st.sm (build_patch_key ops)) _ _
        (λ h. stays) (λ h. attempt_patch-Follows ops response st may)
