-- ===== src/Validation/Files.antt =====
-- When the touched files pass.
use shadow_forge.Base.{
  zero, suc, ◌≡◌, refl, sym, ◌∙◌, ◌↔◌, inl, inr, String, Bool, true, false, List, [], ◌∷◌, Option,
  none, some, arith, any, any-append, All, Bool-cases,
}
use shadow_forge.Text.{Text}
use shadow_forge.Validation.{
  Report, code, signal, Outcome, timed_out, exited, Diagnostic, has_error_level,
}
use shadow_forge.Validation.Success.{Passes, passes}
use shadow_forge.Validation.Touched.{
  Tools, Known, parse_report, why_unavailable, check_typescript_fast_support, check_python,
  python_report, first_typescript, by_available, run_typescript_fast_parse, check_typescript,
  check_rust, Language, python, typescript, rust, other, language_of, check_language,
  check_touched_file, check_touched_files, run_touched,
}

abbrev IsClean : List Diagnostic → Type 0
IsClean diagnostics = any has_error_level diagnostics ≡ false

parse_report_iff :
    (source : String) (path : Text) (o : Outcome) → IsClean (parse_report source path o) ↔ Passes o
unfolding parse_report
parse_report_iff source path timed_out = (λ h. cc, λ h. elim h [ ])
parse_report_iff source path (exited (code zero) stdout stderr) = (λ h. passes, λ h. refl)
parse_report_iff source path (exited (code (suc n)) stdout stderr) = (λ h. cc, λ h. elim h [ ])
parse_report_iff source path (exited (signal n) stdout stderr) = (λ h. cc, λ h. elim h [ ])

why_unavailable_iff : (o : Outcome) → (why_unavailable o ≡ none) ↔ Passes o
unfolding why_unavailable
why_unavailable_iff timed_out = (λ h. cc, λ h. elim h [ ])
why_unavailable_iff (exited (code zero) stdout stderr) = (λ h. passes, λ h. refl)
why_unavailable_iff (exited (code (suc n)) stdout stderr) = (λ h. cc, λ h. elim h [ ])
why_unavailable_iff (exited (signal n) stdout stderr) = (λ h. cc, λ h. elim h [ ])

module _ (tools : Tools) where
  -- The parser of TypeScript is at hand.
  abbrev pub HasTypescript : Type 0
  HasTypescript = (tools.has_node ≡ true) × Passes tools.resolve_typescript

  -- Where the parser of its language is at hand, it takes the file.
  abbrev pub IsParsed : Language → Text → Type 0
  IsParsed python path = tools.compile path ≡ none
  IsParsed typescript path = HasTypescript → Passes (tools.parse_typescript path)
  IsParsed rust path = tools.has_rustfmt ≡ true → Passes (tools.parse_rust path)
  IsParsed other path = Unit

  abbrev pub IsAccepted : Text → Type 0
  IsAccepted path =
      (tools.is_inside path ≡ true)
      × (tools.is_file path ≡ true → IsParsed (language_of (tools.suffix path)) path)

  support_iff : (check_typescript_fast_support tools ≡ none) ↔ HasTypescript
  unfolding check_typescript_fast_support
  support_iff = elim (Bool-cases tools.has_node) [
    | inl h ↦ rw h (
      λ e. (refl, (why_unavailable_iff tools.resolve_typescript).0 e),
      λ e. (why_unavailable_iff tools.resolve_typescript).1 e.1,
    )
    | inr h ↦ rw h (λ e. cc, λ e. absurd (cc))
  ]

  -- What is known of TypeScript is so.
  abbrev IsTrue : Option Bool → Type 0
  IsTrue none = Unit
  IsTrue (some true) = HasTypescript
  IsTrue (some false) = ¬ HasTypescript

  -- A round reports no error exactly if it should, and learns only what is so.
  abbrev IsRight : Type 0 → List Diagnostic × Known → Type 0
  IsRight P r = (IsClean r.0 ↔ P) × IsTrue r.1.ts_available

  typescript_parsed :
      (path : Text)
      → HasTypescript
      → IsClean (run_typescript_fast_parse tools path)
        ↔ (HasTypescript → Passes (tools.parse_typescript path))
  unfolding run_typescript_fast_parse
  typescript_parsed path h = rw h.0 (
    λ e given.
        (parse_report_iff "validator:fast-typescript-parse" path (tools.parse_typescript path)).0 e,
    λ e.
        (parse_report_iff "validator:fast-typescript-parse" path (tools.parse_typescript path)).1
          (e (refl, h.1)),
  )

  abbrev ParsesTypescript : Text → Type 0
  ParsesTypescript path = HasTypescript → Passes (tools.parse_typescript path)

  unparsed : (path : Text) → ¬ HasTypescript → IsClean [] ↔ ParsesTypescript path
  unparsed path lacks = (λ e has. absurd (lacks has), λ e. refl)

  first_typescript-IsRight :
      (path : Text) (known : Known) (o : Option Report)
      → (o ≡ none) ↔ HasTypescript
      → IsRight (ParsesTypescript path) (first_typescript tools path known o)
  first_typescript-IsRight path known none iff = (typescript_parsed path (iff.0 refl), iff.0 refl)
  first_typescript-IsRight path known (some reason) iff =
      let lacks : ¬ HasTypescript = λ has. let e = iff.1 has in cc in (unparsed path lacks, lacks)

  by_available-IsRight :
      (path : Text) (known : Known) (o : Option Bool)
      → IsTrue known.ts_available
      → IsTrue o
      → IsRight (ParsesTypescript path) (by_available tools path known o)
  by_available-IsRight path known (some true) h has = (typescript_parsed path has, h)
  by_available-IsRight path known (some false) h lacks = (unparsed path lacks, h)
  by_available-IsRight path known none h none_known =
      first_typescript-IsRight path known (check_typescript_fast_support tools) support_iff

  check_typescript-IsRight :
      (path : Text) (known : Known)
      → IsTrue known.ts_available
      → IsRight (ParsesTypescript path) (check_typescript tools path known)
  unfolding check_typescript
  check_typescript-IsRight path known h = by_available-IsRight path known known.ts_available h h

  check_rust-IsRight :
      (path : Text) (known : Known)
      → IsTrue known.ts_available
      → IsRight
          (tools.has_rustfmt ≡ true → Passes (tools.parse_rust path))
          (check_rust tools path known)
  unfolding check_rust
  check_rust-IsRight path known h = elim (Bool-cases tools.has_rustfmt) [
    | inl has ↦ rw has (
      (
        (λ e given.
            (parse_report_iff "validator:fast-rust-parse" path (tools.parse_rust path)).0 e),
        λ e. (parse_report_iff "validator:fast-rust-parse" path (tools.parse_rust path)).1 (e refl),
      ),
      h,
    )
    | inr lacks ↦ elim (Bool-cases known.rustfmt_warned) [
      | inl w ↦ rw (lacks, w) (((λ e given. cc), (λ e. refl)), h)
      | inr w ↦ rw (lacks, w) (((λ e given. cc), (λ e. refl)), h)
    ]
  ]

  python_report_iff : (path : Text) (o : Option Text) → IsClean (python_report path o) ↔ (o ≡ none)
  python_report_iff path none = (λ h. refl, λ h. refl)
  python_report_iff path (some words) = (λ h. cc, λ h. cc)

  check_python_iff : (path : Text) → IsClean (check_python tools path) ↔ (tools.compile path ≡ none)
  unfolding check_python
  check_python_iff path = python_report_iff path (tools.compile path)

  check_language-IsRight :
      (language : Language) (path : Text) (known : Known)
      → IsTrue known.ts_available
      → IsRight (IsParsed language path) (check_language tools language path known)
  check_language-IsRight python path known h = (check_python_iff path, h)
  check_language-IsRight typescript path known h = check_typescript-IsRight path known h
  check_language-IsRight rust path known h = check_rust-IsRight path known h
  check_language-IsRight other path known h = (((λ e. tt), (λ e. refl)), h)

  check_touched_file-IsRight :
      (path : Text) (known : Known)
      → IsTrue known.ts_available
      → IsRight (IsAccepted path) (check_touched_file tools path known)
  unfolding check_touched_file
  check_touched_file-IsRight path known h = elim (Bool-cases (tools.is_inside path)) [
    | inl inside ↦ elim (Bool-cases (tools.is_file path)) [
      | inl file ↦
          let right = check_language-IsRight (language_of (tools.suffix path)) path known h in
          rw (inside, file)
            (((λ e. (refl, λ given. right.0.0 e)), (λ e. right.0.1 (e.1 refl))), right.1)
      | inr none_there ↦ rw (inside, none_there) (((λ e. (refl, λ given. cc)), (λ e. refl)), h)
    ]
    | inr outside ↦ rw outside (((λ e. cc), (λ e. absurd (cc))), h)
  ]

  check_touched_files_iff :
      (paths : List Text) (known : Known)
      → IsTrue known.ts_available
      → IsClean (check_touched_files tools paths known) ↔ All IsAccepted paths
  unfolding check_touched_files
  check_touched_files_iff [] known h = (λ e. tt, λ e. refl)
  check_touched_files_iff (path ∷ paths) known h =
      let right = check_touched_file-IsRight path known h in
      let further = check_touched_files_iff paths (check_touched_file tools path known).1 right.1 in
      let both = any-append has_error_level (check_touched_file tools path known).0 _ in
      (
        (λ e.
            let split = sym both ∙ e in
            (right.0.0 (ground (arith, split)), further.0 (ground (arith, split)))),
        λ e. rw (both, right.0.1 e.0, further.1 e.1) refl,
      )

  -- Touched files pass exactly if each of them lies in the workspace and, where it is a file of a
  -- language whose parser is at hand, the parser takes it: Python always, TypeScript if Node.js is
  -- there and resolves its package, Rust if rustfmt is there.
  pub run_touched_iff :
      (touched_files : List Text)
      → ((run_touched tools touched_files).success ≡ true) ↔ All IsAccepted touched_files
  unfolding run_touched
  run_touched_iff touched_files =
      let iff =
        check_touched_files_iff touched_files
          (record { ts_available = none; rustfmt_warned = false }) tt in
      (λ h. iff.0 (ground (arith, h)), λ h. rw (iff.1 h) refl)
