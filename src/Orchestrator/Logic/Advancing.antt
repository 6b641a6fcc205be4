-- ===== src/Orchestrator/Logic/Advancing.antt =====
-- debbuilder/automation_orchestrator.py: `advance` changes the ledger only by calls on its claim, each
-- of a kind that the claim's policy allows.
use deb_builder.Base.{
  ℕ, ◌≡◌, refl, ◌∙◌, ap, inl, inr, true, false, not, ◌||◌, Text, List, some, Result, ok, err,
  truthy?, get_elem?, =t_sound, arith, Bool-cases,
}
use deb_builder.Ledger.Row.{
  Generation, Policy, Stage, validation, validation_admission, publication, same_stage,
  is_retry_delayed, detection, run_admission, run, stopped,
}
use deb_builder.Ledger.Rows.Lifecycle.{Reach, here}
use deb_builder.Ledger.Document.{Entry, Document, validate_entry}
use deb_builder.Ledger.Store.{Host, load, find_entry}
use deb_builder.Ledger.Store.Valid.{Valid-find}
use deb_builder.Ledger.Store.Update.{row?, row?-found, load-Valid}
use deb_builder.Ledger.Store.Commands.{Call, row?-WellFormed}
use deb_builder.Ledger.Store.Histories.{exec_all}
use deb_builder.Orchestrator.Services.{Services, Raised, is_ledger_error}
use deb_builder.Orchestrator.Effects.{
  System, Action, give, throw, caught, ◌>>=◌, read_ledger, raised,
}
use deb_builder.Orchestrator.Records.{retry_due, unless_early, time_of}
use deb_builder.Orchestrator.Validating.{handle_validation}
use deb_builder.Orchestrator.Admitting.{handle_run}
use deb_builder.Orchestrator.Advancing.{
  dispatch, advance_found, advance_entry, advance_raising, settle_end, advance,
}
use deb_builder.Orchestrator.Logic.{Setting, policy, IsRow, Does, Any, GoesOn, Publishes, AllOwn}
use deb_builder.Orchestrator.Logic.Rules.{does_give, does_if, does_reads, does_bind, does_when}
use deb_builder.Orchestrator.Logic.Validating.{does_admit_validation, does_handle_validation}
use deb_builder.Orchestrator.Logic.Admitting.{does_admit_run, does_handle_run}

-- A claim stands at a stage that its policy asks for.
abbrev pub WithinStage : Policy → Stage → Type 0
WithinStage p validation_admission = GoesOn p
WithinStage p validation = GoesOn p
WithinStage p publication = Publishes p
WithinStage p _ = Unit {0}

abbrev pub IsWithin : Generation → Type 0
IsWithin g = WithinStage g.desired_policy g.stage

within-GoesOn :
    (p : Policy) (stage : Stage)
    → WithinStage p stage
    → (same_stage stage validation_admission || same_stage stage validation) ≡ true
    → GoesOn p
within-GoesOn p validation_admission h b = h
within-GoesOn p validation h b = h
within-GoesOn p publication h b = cc
within-GoesOn p detection h b = cc
within-GoesOn p run_admission h b = cc
within-GoesOn p run h b = cc
within-GoesOn p stopped h b = cc

within-Publishes :
    (p : Policy) (stage : Stage)
    → WithinStage p stage
    → same_stage stage publication ≡ true
    → Publishes p
within-Publishes p publication h b = h
within-Publishes p validation_admission h b = cc
within-Publishes p validation h b = cc
within-Publishes p detection h b = cc
within-Publishes p run_admission h b = cc
within-Publishes p run h b = cc
within-Publishes p stopped h b = cc

module _ {W : Type 0} (c : Setting W) where
  does_retry_due : (g : Generation) → Does c (retry_due c.host c.services g) (Any c)
  unfolding retry_due
  does_retry_due g =
      does_if c (is_retry_delayed g.state) _ _
        (λ b.
          does_bind c _ _ (does_reads c _) (λ now q.
            does_give c (unless_early (time_of c.services.timestamp g.not_before) now) tt))
        (λ b. does_give c true tt)

  does_dispatch :
      (depth : ℕ)
      → c.start.generation ≡ c.n
      → IsWithin c.start
      → Does c (dispatch c.host c.services depth c.entry c.start) (Any c)
  unfolding dispatch
  does_dispatch depth same within =
      let row : IsRow c c.start = (same, refl, here) in
      let g = c.start in
      does_if c (not (truthy? g.run_id)) _ _
        (λ b. does_bind c _ _ (does_reads c _) (λ recipe q.
          does_admit_run c (handle_run c.host c.services depth) (does_handle_run c depth) g recipe
            false row))
        (λ b.
          does_if c (same_stage g.stage validation_admission || same_stage g.stage validation) _ _
            (λ b.
              let on = within-GoesOn (policy c) g.stage within b in
              does_if c (is_retry_delayed g.state || same_stage g.stage validation_admission) _ _
                (λ b.
                  does_admit_validation c (handle_validation c.host c.services depth)
                    (λ g' q. does_handle_validation c depth g' q on) g row on)
                (λ b. does_handle_validation c depth g row on))
            (λ b.
              does_if c (same_stage g.stage publication) _ _
                (λ b.
                  does_handle_validation c depth g row
                    (within-Publishes (policy c) g.stage within b).0)
                (λ b. does_handle_run c depth g row)))

  pub does_advance_found :
      (depth : ℕ) (d : Document) (key : Text) (m : ℕ)
      → c.start.generation ≡ c.n
      → IsWithin c.start
      → Does c (advance_found c.host c.services depth d key m c.entry c.start) (Any c)
  unfolding advance_found
  does_advance_found depth d key m same within = does_when c _ _ (λ b.
      does_bind c _ _ (does_retry_due c.start)
        (λ due q. does_when c _ _ (λ b. does_dispatch depth same within)))

-- The entry under a key of a ledger that loads has that key.
pub found-key :
    (h : Host) (d : Document) (key : Text) (e : Entry)
    → load h d ≡ ok d
    → find_entry key d.attempts ≡ some e
    → e.key ≡ key
found-key h d key e loads found =
    let (valid, same) = load-Valid h d d loads in
    let (before, v) = Valid-find h.platform h.bounds d key e valid found in
    let checked = v.entry in =t_sound e.key key (unfold validate_entry in ground (arith, checked))

module _ {W : Type 0} (h : Host) (v : Services W) (depth : ℕ) where
  pub bind-ok :
      {A B : Type 0} (m : Action W A) (k : A → Action W B) (s : System W) (a : A)
      → m s ≡ (ok a, s)
      → (m >>= k) s ≡ k a s
  unfolding ◌>>=◌
  bind-ok m k s a eq = ap (λ q. elim q.0 [ ok a ↦ k a q.1 | err x ↦ (err x, q.1) ]) eq

  advance_entry-found :
      (key : Text) (n : ℕ) (d : Document) (e : Entry) (g : Generation) (s : System W)
      → get_elem? e.generations n ≡ some g
      → advance_entry h v depth d key n (some e) s ≡ advance_found h v depth d key n e g s
  unfolding advance_entry
  advance_entry-found key n d e g s row = rw (advance_entry, row) refl

  advance_raising-found :
      (key : Text) (n : ℕ) (s : System W) (e : Entry) (g : Generation)
      → load h s.disk ≡ ok s.disk
      → find_entry key s.disk.attempts ≡ some e
      → get_elem? e.generations n ≡ some g
      → advance_raising h v depth key n s ≡ advance_found h v depth s.disk key n e g s
  unfolding advance_raising
  advance_raising-found key n s e g loads found row =
      bind-ok (read_ledger h v) (λ d. advance_entry h v depth d key n (find_entry key d.attempts)) s
        s.disk (unfold read_ledger in ap (λ r. (raised r, s)) loads)
      ∙ rw found (advance_entry-found key n s.disk e g s row)

  settle_end-state :
      (r : Result Raised (Unit {0})) (s : System W) → (settle_end h v depth r s).1 ≡ s
  unfolding settle_end give throw
  settle_end-state (ok _) s = refl
  settle_end-state (err x) s = elim (Bool-cases (is_ledger_error x)) [
    | inl b ↦ rw b refl
    | inr b ↦ rw b refl
  ]

  pub advance-raising :
      (key : Text) (n : ℕ) (s : System W)
      → (advance h v depth key n s).1 ≡ (advance_raising h v depth key n s).1
  unfolding advance caught ◌>>=◌
  advance-raising key n s =
      settle_end-state (advance_raising h v depth key n s).0 (advance_raising h v depth key n s).1

  pub advance_lem :
      (key : Text) (n : ℕ) (s : System W) (e : Entry) (g : Generation)
      → load h s.disk ≡ ok s.disk
      → find_entry key s.disk.attempts ≡ some e
      → get_elem? e.generations n ≡ some g
      → IsWithin g
      → (calls : List (Text × ℕ × Call)) × AllOwn v e g.desired_policy
          (Reach h.platform.iso n g)
          n
          calls
        × ((advance h v depth key n s).1.disk ≡ exec_all h calls s.disk)
  advance_lem key n s e g loads found row within =
      let at : row? key n s.disk ≡ some g = row?-found key n s.disk e found ∙ row in
      let formed = row?-WellFormed h s.disk key n g loads at in
      let same = found-key h s.disk key e loads found in
      let c : Setting W = record {
        host = h;
        services = v;
        entry = e;
        n = n;
        start = g;
        is_formed = formed;
      } in
      let (did, post) =
        (does_advance_found c depth s.disk key n formed.position within).does s
          (loads, (g, rw same at, here)) in
      rw (advance-raising key n s, advance_raising-found key n s e g loads found row) did
