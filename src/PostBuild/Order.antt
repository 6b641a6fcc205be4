-- ===== src/PostBuild/Order.antt =====
-- debbuilder/automation_service.py: nothing is published that was not validated.
use deb_builder.Base.{
  ◌≡◌, ◌⊎◌, refl, sym, ◌∙◌, Bool, true, false, not, ◌||◌, Text, Option, none, some, Result, ok, err,
  inl, inr, arith, Bool-cases,
}
use deb_builder.Orchestrator.Services.{Asks}
use deb_builder.Orchestrator.Effects.{System, asks, ◌>>=◌, asks-ok, asks-err}
use deb_builder.PostBuild.{
  Callbacks, Settings, Report, StoredBuild, is_success, is_publishable, publish_validated,
  validate_run, automate, run_post_build,
}

module _ {W : Type 0} (c : Callbacks W) (publish' : Text → Text → Asks W Report) (run_id : Text)
    (s : Settings) where
  -- The same callbacks with another Publication.
  abbrev pub other : Callbacks W
  other = record c { publish = publish' }

  -- The Validation asked for at `w` succeeds.
  abbrev pub Succeeds : W → Type 0
  Succeeds w =
      (r : Report) × ((w' : W) × (c.validate run_id w ≡ (ok r, w')) × (is_success r ≡ true))

  -- The Run stored at `w` is a Build with an artifact, and its Validation then succeeds.
  abbrev pub IsProven : W → Type 0
  IsProven w =
      (b : StoredBuild) × ((w' : W) × (c.load run_id w ≡ (ok (some b), w'))
        × (is_publishable b ≡ true)
        × Succeeds w')

  publish_validated-same :
      (b : StoredBuild) (r : Report) (x : System W)
      → (publish_validated other run_id s b r x ≡ publish_validated c run_id s b r x)
        ⊎ ((s.publishes ≡ true) × (is_success r ≡ true))
  unfolding publish_validated
  publish_validated-same b r x = elim (Bool-cases (not (is_success r) || not s.publishes)) [
    | inl off ↦ inl (rw off refl)
    | inr on ↦ inr (ground (arith, on))
  ]

  validate_run-same :
      (b : StoredBuild) (x : System W) (q : Result _ Report × W)
      → c.validate run_id x.world ≡ q
      → (validate_run other run_id s b x ≡ validate_run c run_id s b x)
        ⊎ ((s.publishes ≡ true) × Succeeds x.world)
  unfolding validate_run
  validate_run-same b x (err e, w) is =
      inl (asks-err (c.validate run_id) _ x w e is ∙ sym (asks-err (c.validate run_id) _ x w e is))
  validate_run-same b x (ok r, w) is = elim (publish_validated-same b r (record x { world = w })) [
    | inl same ↦ inl (
        asks-ok (c.validate run_id) _ x w r is
        ∙ same
        ∙ sym (asks-ok (c.validate run_id) _ x w r is))
    | inr (on, good) ↦ inr (on, (r, (w, is, good)))
  ]

  answered-same :
      (stored : Option StoredBuild) (x : System W) (w : W)
      → c.load run_id w ≡ (ok stored, x.world)
      → (automate other run_id s stored x ≡ automate c run_id s stored x)
        ⊎ ((s.publishes ≡ true) × IsProven w)
  unfolding automate
  answered-same none x w is = inl refl
  answered-same (some b) x w is = elim (Bool-cases (is_publishable b)) [
    | inr bad ↦ inl (rw bad refl)
    | inl good ↦ elim (validate_run-same b x (c.validate run_id x.world) refl) [
      | inl same ↦ inl (rw good same)
      | inr (on, proven) ↦ inr (on, (b, (x.world, is, good, proven)))
    ]
  ]

  automate-same :
      (x : System W) (q : Result _ (Option StoredBuild) × W)
      → c.load run_id x.world ≡ q
      → ((asks (c.load run_id) >>= automate other run_id s) x
          ≡ (asks (c.load run_id) >>= automate c run_id s) x)
        ⊎ ((s.publishes ≡ true) × IsProven x.world)
  automate-same x (err e, w) is =
      inl (asks-err (c.load run_id) _ x w e is ∙ sym (asks-err (c.load run_id) _ x w e is))
  automate-same x (ok stored, w) is =
      let first = asks-ok (c.load run_id) (automate other run_id s) x w stored is in
      let second = asks-ok (c.load run_id) (automate c run_id s) x w stored is in
      elim (answered-same stored (record x { world = w }) x.world is) [
        | inl same ↦ inl (first ∙ same ∙ sym second)
        | inr proven ↦ inr proven
      ]

  -- Another Publication in the place of the one given changes neither the result nor
  -- the state, unless the Run is no dry run, both settings ask for it, the stored Run is a Build with
  -- an artifact, and the Validation asked for next succeeds.
  pub run_post_build_lem :
      (dry_run : Bool) (x : System W)
      → (run_post_build other run_id dry_run s x ≡ run_post_build c run_id dry_run s x)
        ⊎ ((dry_run ≡ false) × (s.validates ≡ true) × (s.publishes ≡ true) × IsProven x.world)
  unfolding run_post_build
  run_post_build_lem dry_run x = elim (Bool-cases (dry_run || not s.validates)) [
    | inl off ↦ inl (rw off refl)
    | inr on ↦ elim (automate-same x (c.load run_id x.world) refl) [
      | inl same ↦ inl (rw on same)
      | inr (publishes, proven) ↦ inr (ground (arith, on), ground (arith, on), publishes, proven)
    ]
  ]
