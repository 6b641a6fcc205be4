-- ===== src/Orchestrator/Records/Waits.antt =====
-- debbuilder/automation_orchestrator.py: how long a claim waits for a retry that was scheduled.
use native.Mathlib.Nat.{pow-suc}
use deb_builder.Base.{
  ℕ, zero, suc, ◌+◌, ◌-◌, ◌*◌, ◌^◌, ◌≤◌, ◌≡◌, refl, sym, ◌∙◌, true, Text, some, arith, ok, leb, ap,
  subst,
}
use deb_builder.Ledger.Row.{
  Generation, Stage, transient_retryable, is_retry_delayed, detection, run_admission, run,
  validation_admission, validation, publication, stopped,
}
use deb_builder.Ledger.Rows.{Outcome, finish_row, count_retry, Change, changed, row_of}
use deb_builder.Ledger.Document.{Entry, Document}
use deb_builder.Ledger.Store.{Host}
use deb_builder.Ledger.Store.Update.{row?}
use deb_builder.Ledger.Store.Commands.{Call, run_call, run_call_lem, run_call-Updated, change_of}
use deb_builder.Ledger.Store.Commands
use deb_builder.Orchestrator.Services.{Services}
use deb_builder.Orchestrator.Effects.{
  System, give, reads, ◌>>=◌, >>=-split, ledger_call, ledger_call-ok,
}
use deb_builder.Orchestrator.Authority.{
  retries, retry_seconds, min_retry_seconds, max_retry_seconds,
}
use deb_builder.Orchestrator.Records.{
  retry_due, delay, schedule_retry, retry_outcome, time_of, unless_early,
}

retry-low : (count : ℕ) → 1 ≤ 2 ^ count
retry-low zero = omega arith
retry-low (suc count) = let ih = retry-low count in rw (pow-suc 2 count) (omega arith)

retry_seconds_bounds :
    (count : ℕ)
    → (min_retry_seconds ≤ retry_seconds count) × (retry_seconds count ≤ max_retry_seconds)
unfolding retry_seconds
retry_seconds_bounds count = ground (arith, retry-low (count - 1))

counted :
    (stage : Stage) (n : ℕ) (g : Generation)
    → ((count_retry stage n g).not_before ≡ g.not_before)
      × ((count_retry stage n g).state ≡ g.state)
unfolding count_retry
counted run_admission n g = (refl, refl)
counted validation_admission n g = (refl, refl)
counted validation n g = (refl, refl)
counted publication n g = (refl, refl)
counted detection n g = (refl, refl)
counted run n g = (refl, refl)
counted stopped n g = (refl, refl)

finished :
    (now : Text) (o : Outcome) (old : Generation)
    → ((finish_row now transient_retryable o old).not_before ≡ o.not_before)
      × (is_retry_delayed (finish_row now transient_retryable o old).state ≡ true)
unfolding finish_row
finished now o old = (
  (counted old.stage o.retry_count _).0,
  ap is_retry_delayed (counted old.stage o.retry_count _).1,
)

finish_change :
    (now : Text) (o : Outcome) (e : Entry) (old : Generation) (c : Change)
    → change_of (Commands.finish_call now transient_retryable o) e old ≡ ok c
    → c ≡ changed (finish_row now transient_retryable o old)
unfolding change_of
finish_change now o e old c is = cc

-- The row that `finish` writes for a failure that may pass.
finished_retry :
    (h : Host) (key : Text) (n : ℕ) (now : Text) (o : Outcome) (disk after : Document)
    (g : Generation)
    → run_call h key n (Commands.finish_call now transient_retryable o) disk ≡ ok (g, after)
    → (g.not_before ≡ o.not_before) × (is_retry_delayed g.state ≡ true)
finished_retry h key n now o disk after g r =
    let (tested, u) =
      run_call-Updated h key n (Commands.finish_call now transient_retryable o) disk after g r in
    let row = finish_change now o u.entry u.old u.change u.changes in
    let reply : g ≡ finish_row now transient_retryable o u.old = u.reply ∙ ap row_of row in
    let (same, delayed) = finished now o u.old in
    (ap (λ x. x.not_before) reply ∙ same, ap (λ x. is_retry_delayed x.state) reply ∙ delayed)

module _ {W : Type 0} (h : Host) (v : Services W) where
  abbrev pub clock : System W → ℕ
  clock s = (v.wall_clock s.world).0

  delay_value :
      (count : ℕ) (s : System W)
      → (delay h v count s).0 ≡ ok (v.iso_text (clock s + retry_seconds count * 1000000))
  unfolding delay reads give ◌>>=◌
  delay_value count s = refl

  -- The row that the ledger holds after such a call of `finish`.
  finished_call :
      (key : Text) (n : ℕ) (o : Outcome) (s t u : System W) (row later : Generation)
      → ledger_call h v key n (λ now. Commands.finish_call now transient_retryable o) s
        ≡ (ok row, t)
      → give {W = W} (tt {0}) t ≡ (ok tt, u)
      → row? key n u.disk ≡ some later
      → (later.not_before ≡ o.not_before) × (is_retry_delayed later.state ≡ true)
  unfolding give
  finished_call key n o s t u row later called last found =
      let r = ledger_call-ok h v key n _ s t row called in
      let (loads, there, step, others) = run_call_lem h key n _ s.disk t.disk row r in
      let same : t.disk ≡ u.disk = ap (λ x. x.1.disk) last in
      let is : row ≡ later = cc in
      subst (λ x. (x.not_before ≡ o.not_before) × (is_retry_delayed x.state ≡ true)) is
        (finished_retry h key n _ o s.disk t.disk row r)

  -- The row that `schedule_retry` leaves in the ledger.
  scheduled :
      (e : Entry) (g : Generation) (code diagnostic : Text) (s t : System W) (later : Generation)
      → schedule_retry h v e g code diagnostic s ≡ (ok tt, t)
      → row? e.key g.generation t.disk ≡ some later
      → (later.not_before ≡ some (v.iso_text (clock s + retry_seconds (retries g + 1) * 1000000)))
        × (is_retry_delayed later.state ≡ true)
  unfolding schedule_retry retry_outcome
  scheduled e g code diagnostic s t later done found =
      let (text, waits, rest) = >>=-split (delay h v (retries g + 1)) _ s tt t done in
      let (row, called, last) = >>=-split (ledger_call h v e.key g.generation _) _ _ tt t rest in
      let (at, delayed) = finished_call e.key g.generation _ _ _ t row later called last found in
      let value = delay_value (retries g + 1) s in
      let is : ok text ≡ (delay h v (retries g + 1) s).0 = sym (ap (λ x. x.0) waits) in
      let same : text ≡ v.iso_text (clock s + retry_seconds (retries g + 1) * 1000000) = cc in
      (at ∙ ap some same, delayed)

  due_value :
      (g : Generation) (s : System W)
      → is_retry_delayed g.state ≡ true
      → (retry_due h v g s).0 ≡ ok (unless_early (time_of v.timestamp g.not_before) (clock s))
  unfolding retry_due reads give ◌>>=◌
  due_value g s delayed = rw delayed refl

  -- A retry that was scheduled is not due before a minute has passed on the wall clock, and is due after
  -- a quarter of an hour, if a time that was written as a text is read back as it was.
  pub schedule_retry_lem :
      ((time : ℕ) → v.timestamp (v.iso_text time) ≡ some time)
      → (e : Entry) (g : Generation) (code diagnostic : Text) (s t now : System W)
        (later : Generation)
      → schedule_retry h v e g code diagnostic s ≡ (ok tt, t)
      → row? e.key g.generation t.disk ≡ some later
      → ((retry_due h v later now).0 ≡ ok true → clock s + min_retry_seconds * 1000000 ≤ clock now)
        × (clock s + max_retry_seconds * 1000000 ≤ clock now
            → (retry_due h v later now).0 ≡ ok true)
  schedule_retry_lem reads_back e g code diagnostic s t now later done found =
      let (at, delayed) = scheduled e g code diagnostic s t later done found in
      let (low, high) = retry_seconds_bounds (retries g + 1) in
      let wait = retry_seconds (retries g + 1) in
      let due = due_value later now delayed in
      let time : time_of v.timestamp later.not_before ≡ some (clock s + wait * 1000000) =
        rw at (reads_back _) in
      let value : (retry_due h v later now).0 ≡ ok (leb (clock s + wait * 1000000) (clock now)) =
        due ∙ ap (λ x. ok (unless_early x (clock now))) time in
      (
        λ yes.
            let is : leb (clock s + wait * 1000000) (clock now) ≡ true = cc in
            ground (arith, is, low),
        λ passed. value ∙ ap ok (ground (arith, passed, high)),
      )
