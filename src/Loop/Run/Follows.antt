-- ===== src/Loop/Run/Follows.antt =====
-- Every iteration is a move of the loop's core or ends the step, and so does every run.
use shadow_forge.Base.{
  ℕ, zero, suc, ◌≡◌, sym, ap, ◌∙◌, inl, inr, Bool, true, false, List, Option, none, some,
  if◌then◌else◌, Bool-cases, ◌==◌,
}
use mathlib.Core.Path.{subst}
use shadow_forge.Verify.{
  ActionType, tool_call, revision_needed, emit_patch_action, verify_done_action,
  allowed_action_types,
}
use shadow_forge.Verify.Tools.{has_type, allowed_action_types-mirror}
use shadow_forge.Loop.{
  Response, Entry, Collaborators, Settings, again, finished, raised, is_command_only_step,
}
use shadow_forge.Loop.Patch.{State, Outcome}
use shadow_forge.Loop.Patch.Follows.{WasApplied, flush-core, emit_patch-Follows}
use shadow_forge.Loop.Calls.Follows.{tool_call-Follows}
use shadow_forge.Loop.Run.{
  state_rank, may_finish, prepare, refresh, verify_done, request_revision, dispatch, act,
  take_answer, ask_model, iterate, go_on, rounds, start, run, total_budget,
}
use shadow_forge.Loop.Moves.{
  Core, core, stays, confirmed, handed_over, Follows, if-Follows, Reaches, here, onward, Ends,
  opening,
}

module _ {World Candidate Baseline : Type 0} (C : Collaborators World Candidate Baseline)
    (S : Settings) where
  verify_done-Follows :
      (response : Response) (st : State C S)
      → Follows S (WasApplied C S) (core st) (verify_done C S response st)
  unfolding verify_done
  verify_done-Follows response st =
      if-Follows S (WasApplied C S) (core st) (may_finish st.sm.command_only st.sm.state) _ _
        (λ h.
          confirmed _ _ response.verified response.test_output response.step_summary _ h
            (ap (λ (d : Core). d.document) (flush-core C S st))
            (ap (λ (d : Core). d.calls) (flush-core C S st)))
        (λ h. stays)

  dispatch-Follows :
      (type : ActionType) (iteration : ℕ) (response : Response) (st : State C S)
      → has_type type (allowed_action_types st.sm) ≡ true
      → Follows S (WasApplied C S) (core st) (dispatch C S type iteration response st)
  unfolding dispatch request_revision
  dispatch-Follows verify_done_action iteration response st h = verify_done-Follows response st
  dispatch-Follows revision_needed iteration response st h =
      handed_over response.reason response.evidence response.affected_steps
  dispatch-Follows emit_patch_action iteration response st h =
      emit_patch-Follows C S response.patch_ops response st
        (sym (allowed_action_types-mirror st.sm).0 ∙ h)
  dispatch-Follows tool_call iteration response st h =
      tool_call-Follows C S response.tool iteration response st

  act-Follows :
      (type : Option ActionType) (iteration : ℕ) (response : Response) (st : State C S)
      → Follows S (WasApplied C S) (core st) (act C S type iteration response st)
  unfolding act
  act-Follows none iteration response st = stays
  act-Follows (some type) iteration response st =
      if-Follows S (WasApplied C S) (core st) (has_type type (allowed_action_types st.sm)) _ _
        (dispatch-Follows type iteration response st) (λ h. stays)

  take_answer-Follows :
      (answer : Option Response) (iteration : ℕ) (st : State C S)
      → Follows S (WasApplied C S) (core st) (take_answer C S answer iteration st)
  unfolding take_answer
  take_answer-Follows none iteration st = stays
  take_answer-Follows (some response) iteration st = act-Follows response.type iteration response st

  ask_model-Follows :
      (c : Core) (iteration : ℕ) (st : State C S)
      → core st ≡ c
      → Follows S (WasApplied C S) c (ask_model C S iteration st)
  unfolding ask_model
  ask_model-Follows c iteration st e =
      subst (λ d. Follows S (WasApplied C S) d (ask_model C S iteration st)) e
        (take_answer-Follows _ iteration _)

  refresh-core : (st : State C S) → core (refresh C S st) ≡ core st
  unfolding refresh
  refresh-core st = elim (Bool-cases (state_rank st.sm.state == state_rank st.prev_sm_state)) [
    | inl h ↦ rw h
    | inr h ↦ rw h
  ]

  pub iterate-Follows :
      (iteration : ℕ) (st : State C S)
      → Follows S (WasApplied C S) (core st) (iterate C S iteration st)
  unfolding iterate prepare
  iterate-Follows iteration st =
      if-Follows S (WasApplied C S) (core st) (C.abort_is_set st.world) _ _ (λ h k. cc)
        (λ h. ask_model-Follows (core st) iteration _ (refresh-core (prepare C S st)))

  go_on-Ends :
      (c d : Core) (rest : State C S → Outcome C S) (next : Outcome C S)
      → Reaches S (WasApplied C S) c d
      → Follows S (WasApplied C S) d next
      → ((st : State C S)
          → Reaches S (WasApplied C S) c (core st)
          → Ends S (WasApplied C S) c (rest st))
      → Ends S (WasApplied C S) c (go_on C S rest next)
  go_on-Ends c d rest (again st) way move k = k st (onward way move)
  go_on-Ends c d rest (finished outcome st) way final k = (d, way, final)
  go_on-Ends c d rest (raised e st) way other k = other

  if-Ends :
      (c : Core) (b : Bool) (x y : Outcome C S)
      → Ends S (WasApplied C S) c x
      → Ends S (WasApplied C S) c y
      → Ends S (WasApplied C S) c (if b then x else y)
  if-Ends c true x y h k = h
  if-Ends c false x y h k = k

  rounds-Ends :
      (c : Core) (left iteration : ℕ) (st : State C S)
      → Reaches S (WasApplied C S) c (core st)
      → Ends S (WasApplied C S) c (rounds C S left iteration st)
  unfolding rounds
  rounds-Ends c zero iteration st way =
      if-Ends c st.had_scope_violation _ _ (core st, way, handed_over _ _ _) (λ k. cc)
  rounds-Ends c (suc left) iteration st way =
      go_on-Ends c (core st) (rounds C S left (suc iteration)) (iterate C S iteration st) way
        (iterate-Follows iteration st) (rounds-Ends c left (suc iteration))

  abbrev pub command_only : World → Bool
  command_only world = is_command_only_step (C.is_dir world) S.has_shadow_path S.step_targets

  -- However the model answers, every run refines the moves: it returns an outcome that is final for a
  -- core which moves reach from the opening one, or raises another exception than that of an
  -- undefined transition.
  pub run-Ends :
      (world : World) (history : List Entry) (used : ℕ)
      → Ends S (WasApplied C S) (opening (command_only world) used) (run C S world history used)
  unfolding run start
  run-Ends world history used =
      rounds-Ends (opening (command_only world) used) (total_budget C S) 0
        (start C S world history used) here
