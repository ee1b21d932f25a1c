-- ===== src/Session/InSync.antt =====
-- The shadow and the real files at the boundaries of a patch.
use mathlib.Core.Path.{subst}
use shadow_forge.Base.{
  ◌≡◌, refl, sym, ap, ◌∙◌, ◌≢◌, ◌⊎◌, String, true, false, ◌||◌, List, [], ◌∷◌, ◌++◌, Option, none,
  some, arith, if◌then◌else◌, has_name, eq_iff, Result, ok, err,
}
use shadow_forge.Text.{Text}
use shadow_forge.Loop.{RawOp, op_files}
use shadow_forge.Session.{
  Files, SessionError, no_shadow, validate_patch_ops, TurnEditSession, Workspace,
  prepare_lightweight, seed, ensure_shadow, opened, settle, apply_checked, apply, promote_files,
  accept, restore_files, reject,
}
use shadow_forge.Session.Files.{
  is_placed, prepare_lightweight_at, promote_files_at, restore_files_at, is_new_at, seed_at,
}

-- The patch engine changes no file that it does not report.
pub record IsFramed (W : Workspace) : Type 0 where
  pub frame :
      (files after : Files) (ops : List RawOp) (allowed applied : List String)
      → W.apply_ops files ops allowed ≡ (after, ok applied)
      → (p : String) → is_placed W p applied ≡ false
      → after p ≡ files p

has_name-append :
    (x : String) (xs ys : List String) → has_name x (xs ++ ys) ≡ (has_name x xs || has_name x ys)
has_name-append x [] ys = refl
has_name-append x (y ∷ xs) ys = ground (arith, has_name-append x xs ys)

module _ (W : Workspace) where
  -- Beside the pending files the shadow holds nothing but real files as they are, and all of those
  -- that it has held before.
  pub record Agrees (pending ever : List String) (real shadow : Files) : Type 0 where
    pub clean :
        (p : String) → is_placed W p pending ≡ false → (shadow p ≡ none) ⊎ (shadow p ≡ real p)
    pub held :
        (rel : String)
        → has_name rel ever ≡ true
        → is_placed W (W.place rel) pending ≡ false
        → shadow (W.place rel) ≡ real (W.place rel)

  -- A session with no shadow has held nothing.
  abbrev pub IsSynced : List String → Option Files → Files → Type 0
  IsSynced ever none real = ever ≡ []
  IsSynced ever (some shadow) real = Agrees [] ever real shadow

  abbrev pub InSync : TurnEditSession → Type 0
  InSync s = IsSynced s.touched_ever s.shadow s.real

  placed_of_name :
      (rel : String) (rels : List String)
      → has_name rel rels ≡ true
      → is_placed W (W.place rel) rels ≡ true
  placed_of_name rel [] h = cc
  placed_of_name rel (r ∷ rels) h =
      ground (arith, eq_iff r rel, eq_iff (W.place r) (W.place rel), placed_of_name rel rels)

  new_of_name :
      (rel : String) (ever rels : List String)
      → has_name rel rels ≡ true
      → has_name rel ever ≡ false
      → is_new_at W (W.place rel) ever rels ≡ true
  new_of_name rel ever [] h n = cc
  new_of_name rel ever (r ∷ rels) h n =
      ground (arith, eq_iff r rel, eq_iff (W.place r) (W.place rel), new_of_name rel ever rels)

  seeded-Agrees :
      (ever touched : List String) (real shadow : Files)
      → Agrees [] ever real shadow
      → Agrees [] (ever ++ touched) real (seed W real ever touched shadow)
  seeded-Agrees ever touched real shadow a = record {
    clean = λ p n. ground (arith, seed_at W real ever touched shadow p, a.clean p refl);
    held = λ rel h n. ground (
      arith,
      seed_at W real ever touched shadow (W.place rel),
      a.clean (W.place rel) refl,
      a.held rel,
      has_name-append rel ever touched,
      new_of_name rel ever touched,
    );
  }

  prepared-Agrees :
      (touched : List String) (real : Files)
      → Agrees [] touched real (prepare_lightweight W real touched (λ p. none))
  prepared-Agrees touched real = record {
    clean = λ p n. ground (arith, prepare_lightweight_at W real touched (λ p. none) p);
    held = λ rel h n. ground (
      arith,
      prepare_lightweight_at W real touched (λ p. none) (W.place rel),
      placed_of_name rel touched,
    );
  }

  ensured-Agrees :
      (ever touched : List String) (o : Option Files) (real : Files)
      → IsSynced ever o real
      → Agrees [] (ever ++ touched) real (elim o [
        | none ↦ prepare_lightweight W real touched (λ p. none)
        | some shadow ↦ seed W real ever touched shadow
      ])
  ensured-Agrees ever touched none real h =
      subst (λ e. Agrees [] (e ++ touched) real (prepare_lightweight W real touched (λ p. none)))
        (sym h) (prepared-Agrees touched real)
  ensured-Agrees ever touched (some shadow) real h = seeded-Agrees ever touched real shadow h

  ensure_shadow-Agrees :
      (touched : List String) (s : TurnEditSession)
      → InSync s
      → Agrees [] (s.touched_ever ++ touched) s.real (ensure_shadow W touched s)
  unfolding ensure_shadow
  ensure_shadow-Agrees touched s h = ensured-Agrees s.touched_ever touched s.shadow s.real h

  -- The session behind a patch that has been applied.
  abbrev landed : List RawOp → TurnEditSession → Files → List String → TurnEditSession
  landed ops s shadow applied = record (opened W (op_files ops) shadow s) {
    pending_touched = applied;
  }

  pub apply_lands :
      (ops : List RawOp) (s s1 : TurnEditSession) (applied : List String)
      → apply W ops s ≡ (s1, ok applied)
      → (shadow : Files) × (W.apply_ops (ensure_shadow W (op_files ops) s) ops (op_files ops)
          ≡ (shadow, ok applied))
        × (s1 ≡ landed ops s shadow applied)
  unfolding apply
  apply_lands ops s s1 applied = checked (validate_patch_ops ops)
    where
      settled :
          (r : Files × Result Text (List String)) (base : TurnEditSession)
          → settle W r base ≡ (s1, ok applied)
          → (shadow : Files) × (r ≡ (shadow, ok applied))
            × (s1 ≡ record base { shadow = some shadow; pending_touched = applied })
      settled (shadow, ok found) base h = (shadow, cc, cc)
      settled (shadow, err e) base h = cc

      checked :
          (o : Option SessionError)
          → (elim o [ some e ↦ (s, err e) | none ↦ apply_checked W ops s ]) ≡ (s1, ok applied)
          → (shadow : Files) × (W.apply_ops (ensure_shadow W (op_files ops) s) ops (op_files ops)
              ≡ (shadow, ok applied))
            × (s1 ≡ landed ops s shadow applied)
      checked (some e) h = cc
      checked none h = settled _ _ h

  landed-Agrees :
      (ops : List RawOp) (s : TurnEditSession) (shadow : Files) (applied : List String)
      → IsFramed W
      → InSync s
      → W.apply_ops (ensure_shadow W (op_files ops) s) ops (op_files ops) ≡ (shadow, ok applied)
      → Agrees applied (s.touched_ever ++ op_files ops) s.real shadow
  landed-Agrees ops s shadow applied framed sync e =
      let before = ensure_shadow-Agrees (op_files ops) s sync in
      let same =
        framed.frame (ensure_shadow W (op_files ops) s) shadow ops (op_files ops) applied e in
      record {
        clean =
            λ p n. subst (λ o. (o ≡ none) ⊎ (o ≡ s.real p)) (sym (same p n)) (before.clean p refl);
        held = λ rel h n. same (W.place rel) n ∙ before.held rel h refl;
      }

  -- With an engine that changes no file but those that it reports, a session that is in sync stays
  -- so over a patch that is applied and then rejected: no real file is changed, and the shadow holds
  -- again, of the files that it has held, what the real files are.
  pub apply-reject :
      (ops : List RawOp) (s s1 : TurnEditSession) (applied : List String)
      → IsFramed W
      → InSync s
      → apply W ops s ≡ (s1, ok applied)
      → (s2 : TurnEditSession) × (reject W s1 ≡ ok s2)
        × InSync s2
        × (s2.real ≡ s.real)
        × (s2.pending_touched ≡ [])
  unfolding reject
  apply-reject ops s s1 applied framed sync h =
      let (shadow, e, is) = apply_lands ops s s1 applied h in
      let a = landed-Agrees ops s shadow applied framed sync e in
      (
        record (landed ops s shadow applied) {
          shadow = some (restore_files W s.real applied shadow);
          pending_touched = [];
        },
        ap (reject W) is,
        record {
          clean = λ p n. ground (arith, restore_files_at W s.real applied shadow p, a.clean p);
          held = λ rel k n.
              ground (arith, restore_files_at W s.real applied shadow (W.place rel), a.held rel k);
        },
        refl,
        refl,
      )

  -- With an engine that changes no file but those that it reports, a session that is in sync stays
  -- so over a patch that is applied and then accepted, if no applied file that is real is gone from
  -- the shadow: each applied file becomes what the shadow holds, and every other real file is as it
  -- was.
  pub apply-accept :
      (ops : List RawOp) (s s1 : TurnEditSession) (applied : List String) (shadow : Files)
      → IsFramed W
      → InSync s
      → apply W ops s ≡ (s1, ok applied)
      → s1.shadow ≡ some shadow
      → ((p : String) → is_placed W p applied ≡ true → shadow p ≡ none → s.real p ≡ none)
      → (s2 : TurnEditSession) × (accept W s1 ≡ ok s2)
        × InSync s2
        × ((p : String) → s2.real p ≡ (if is_placed W p applied then shadow p else s.real p))
        × (s2.pending_touched ≡ [])
  unfolding accept
  apply-accept ops s s1 applied shadow framed sync h held none_lost =
      let (found, e, is) = apply_lands ops s s1 applied h in
      let same = some_files (sym (ap (λ (t : TurnEditSession). t.shadow) is) ∙ held) in
      let a =
        subst (λ f. Agrees applied (s.touched_ever ++ op_files ops) s.real f) same
          (landed-Agrees ops s found applied framed sync e) in
      (
        record (landed ops s shadow applied) {
          real = promote_files W shadow applied s.real;
          pending_touched = [];
        },
        ap (accept W) (is ∙ ap (λ f. landed ops s f applied) same),
        record {
          clean = λ p n.
              ground (arith, promote_files_at W shadow applied s.real p, a.clean p, none_lost p);
          held = λ rel k n. ground (
            arith,
            promote_files_at W shadow applied s.real (W.place rel),
            a.held rel k,
            none_lost (W.place rel),
          );
        },
        λ p. ground (arith, promote_files_at W shadow applied s.real p, none_lost p),
        refl,
      )
    where
      some_files : {f g : Files} → some f ≡ some g → f ≡ g
      some_files h = cc

  -- Accepting a patch never removes a real file, whatever the patch has deleted.
  pub accept_keeps :
      (s s2 : TurnEditSession) (p : String)
      → accept W s ≡ ok s2
      → s.real p ≢ none
      → s2.real p ≢ none
  unfolding accept
  accept_keeps s s2 p h there = from s.shadow h
    where
      real_of : Result SessionError TurnEditSession → Files
      real_of (ok t) = t.real
      real_of (err e) = λ q. none

      from :
          (o : Option Files)
          → (elim o [
            | none ↦ err no_shadow
            | some shadow ↦ ok (record s {
              real = promote_files W shadow s.pending_touched s.real;
              pending_touched = [];
            })
          ])
            ≡ ok s2
          → s2.real p ≢ none
      from none e = cc
      from (some shadow) e =
          let is = ap real_of e in
          λ gone. ground (
            arith,
            ap (λ (f : Files). f p) is,
            promote_files_at W shadow s.pending_touched s.real p,
            there,
            gone,
          )
