-- ===== src/Validation/Success.antt =====
-- When a validation succeeds.
use mathlib.Core.List.{append-nil, append_assoc}
use mathlib.Core.Path.{subst}
use shadow_forge.Base.{
  zero, suc, ◌≡◌, ◌≢◌, refl, sym, ap, ◌∙◌, ◌↔◌, ◌⊎◌, inl, inr, Bool, true, false, List, [], ◌∷◌,
  ◌++◌, Option, arith, any, any-append,
}
use shadow_forge.Text.{Text}
use shadow_forge.Validation.{
  ValidationCommand, Diagnostic, code, signal, Outcome, timed_out, exited, has_error_level, Shell,
  run_command, run_all, chosen_commands, run_commands, run,
}

-- The process has ended in time, with the code zero.
pub data Passes : Outcome → Type 0 where
  passes : {stdout stderr : Text} → Passes (exited (code 0) stdout stderr)

-- A command that only warns, or whose process passes.
abbrev pub IsFine : ValidationCommand → Outcome → Type 0
IsFine c o = (c.warning_only ≡ true) ⊎ Passes o

abbrev has_errors : List Diagnostic → Bool
has_errors = any has_error_level

run_command-IsFine :
    (c : ValidationCommand) (o : Outcome) → has_errors (run_command c o) ≡ false → IsFine c o
unfolding run_command
run_command-IsFine c timed_out h = ground (arith, h)
run_command-IsFine c (exited (code zero) stdout stderr) h = inr passes
run_command-IsFine c (exited (code (suc n)) stdout stderr) h = ground (arith, h)
run_command-IsFine c (exited (signal n) stdout stderr) h = ground (arith, h)

IsFine-run_command :
    (c : ValidationCommand) (o : Outcome) → IsFine c o → has_errors (run_command c o) ≡ false
unfolding run_command
IsFine-run_command c o (inr passes) = refl
IsFine-run_command c timed_out (inl h) = rw h refl
IsFine-run_command c (exited (code zero) stdout stderr) (inl h) = refl
IsFine-run_command c (exited (code (suc n)) stdout stderr) (inl h) = rw h refl
IsFine-run_command c (exited (signal n) stdout stderr) (inl h) = rw h refl

module _ (shell : Shell) where
  -- Every command is fine in its turn, behind those before it.
  abbrev AllFine : List ValidationCommand → List ValidationCommand → Type 0
  AllFine done [] = Unit
  AllFine done (c ∷ cs) = IsFine c (shell done c) × AllFine (done ++ c ∷ []) cs

  run_all-AllFine :
      (done cs : List ValidationCommand)
      → has_errors (run_all shell done cs) ≡ false
      → AllFine done cs
  unfolding run_all
  run_all-AllFine done [] h = tt
  run_all-AllFine done (c ∷ cs) h =
      let split = sym (any-append has_error_level (run_command c (shell done c)) _) ∙ h in
      (
        run_command-IsFine c (shell done c) (ground (arith, split)),
        run_all-AllFine (done ++ c ∷ []) cs (ground (arith, split)),
      )

  AllFine-run_all :
      (done cs : List ValidationCommand)
      → AllFine done cs
      → has_errors (run_all shell done cs) ≡ false
  unfolding run_all
  AllFine-run_all done [] h = refl
  AllFine-run_all done (c ∷ cs) h =
      rw
        (
          any-append has_error_level (run_command c (shell done c))
              (run_all shell (done ++ c ∷ []) cs),
          IsFine-run_command c (shell done c) h.0,
          AllFine-run_all (done ++ c ∷ []) cs h.1,
        )
        refl

  AllFine-at :
      (done before after : List ValidationCommand) (c : ValidationCommand)
      → AllFine done (before ++ c ∷ after)
      → IsFine c (shell (done ++ before) c)
  AllFine-at done [] after c h = rw (append-nil done) h.0
  AllFine-at done (b ∷ before) after c h =
      subst (λ prior. IsFine c (shell prior c)) (append_assoc done (b ∷ []) before)
        (AllFine-at (done ++ b ∷ []) before after c h.1)

  all_at-AllFine :
      (done cs : List ValidationCommand)
      → ((before after : List ValidationCommand) (c : ValidationCommand)
          → cs ≡ before ++ c ∷ after
          → IsFine c (shell (done ++ before) c))
      → AllFine done cs
  all_at-AllFine done [] h = tt
  all_at-AllFine done (c ∷ cs) h = (
    subst (λ prior. IsFine c (shell prior c)) (append-nil done) (h [] cs c refl),
    all_at-AllFine (done ++ c ∷ []) cs (λ before after d e.
        subst (λ prior. IsFine d (shell prior d)) (sym (append_assoc done (c ∷ []) before))
          (h (c ∷ before) after d (ap (λ l. c ∷ l) e))),
  )

  -- There is a command, and each is fine behind those before it.
  abbrev pub Succeeds : List ValidationCommand → Type 0
  Succeeds commands =
      (commands ≢ [])
      × ((before after : List ValidationCommand) (c : ValidationCommand)
          → commands ≡ before ++ c ∷ after
          → IsFine c (shell before c))

  run_commands_iff :
      (commands : List ValidationCommand)
      → ((run_commands shell commands).success ≡ true) ↔ Succeeds commands
  unfolding run_commands
  run_commands_iff [] = (λ h. cc, λ h. absurd (h.0 refl))
  run_commands_iff (c ∷ cs) = (
    (λ h. (
      (λ empty. cc),
      λ before after d split.
          AllFine-at [] before after d
            (subst (AllFine []) split (run_all-AllFine [] (c ∷ cs) (ground (arith, h)))),
    )),
    (λ h. rw (AllFine-run_all [] (c ∷ cs) (all_at-AllFine [] (c ∷ cs) h.1)) refl),
  )

  -- A validation succeeds exactly if there is a command to run, configured or detected, and every
  -- command is fine: it is one that only warns, or its process ends in time with the code zero,
  -- behind the commands that run before it.
  pub run_iff :
      (configured : Option (List ValidationCommand)) (detected : List ValidationCommand)
      → ((run shell configured detected).success ≡ true)
        ↔ Succeeds (chosen_commands configured detected)
  unfolding run
  run_iff configured detected = run_commands_iff (chosen_commands configured detected)
