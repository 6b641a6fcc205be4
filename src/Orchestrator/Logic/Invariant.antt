-- ===== src/Orchestrator/Logic/Invariant.antt =====
-- debbuilder/automation_orchestrator.py: what any passes of the orchestrator keep of the whole ledger.
use deb_builder.Base.{
  ℕ, ◌≡◌, ◌⊎◌, refl, sym, ◌∙◌, subst, inl, inr, true, false, Text, List, [], ◌∷◌, some, ok, arith,
  Result-cases,
}
use deb_builder.Ledger.Row.{
  Generation, Policy, Stage, Classification, run_admission, run, stopped, validation,
  validation_admission, publication, detection,
}
use deb_builder.Ledger.Rows.{
  Change, changed, Outcome, row_of, preallocate_row, finish_row, notify_row, linked, activate,
  advanced, count_retry,
}
use deb_builder.Ledger.Rows.Accepted.{link_row-cases, advance_row-cases}
use deb_builder.Ledger.Rows.Lifecycle.{Reach-Monotone}
use deb_builder.Ledger.Document.{Entry, Document}
use deb_builder.Ledger.Store.{Host, load, verify_loaded}
use deb_builder.Ledger.Store.Update.{row?, Updated-before}
use deb_builder.Ledger.Store.Commands.{
  Call, change_of, run_call, run_call_lem, run_call-Updated, row?-WellFormed,
}
use deb_builder.Ledger.Store.Commands
use deb_builder.Ledger.Store.Histories.{exec, exec_all, exec-loads, exec-Lives, same_place}
use deb_builder.Orchestrator.Services.{Services}
use deb_builder.Orchestrator.Logic.{AllOwn, Fits, AllowsStage}
use deb_builder.Orchestrator.Logic.Advancing.{WithinStage, IsWithin}

-- The stage that a call writes.
abbrev NewStage : Call → Stage → Type 0
NewStage (Commands.preallocate now candidate) s = s ≡ run_admission
NewStage (Commands.link now store id) s = s ≡ run
NewStage (Commands.finish_call now kind o) s = s ≡ stopped
NewStage (Commands.advance now stage val pub_id) s = s ≡ stage
NewStage (Commands.notify now) s = false ≡ true

preallocate-stage :
    (now candidate : Text) (g : Generation) (ch : Change)
    → preallocate_row now candidate g ≡ ok ch
    → ((row_of ch).desired_policy ≡ g.desired_policy)
      × (((row_of ch).stage ≡ g.stage) ⊎ ((row_of ch).stage ≡ run_admission))
unfolding preallocate_row
preallocate-stage now candidate g ch r = ground arith

finish-stage :
    (now : Text) (kind : Classification) (o : Outcome) (g : Generation)
    → ((finish_row now kind o g).desired_policy ≡ g.desired_policy)
      × (((finish_row now kind o g).stage ≡ g.stage) ⊎ ((finish_row now kind o g).stage ≡ stopped))
unfolding finish_row count_retry
finish-stage now kind o g = ground arith

notify-stage :
    (now : Text) (g : Generation) (ch : Change)
    → notify_row now g ≡ ok ch
    → ((row_of ch).desired_policy ≡ g.desired_policy) × ((row_of ch).stage ≡ g.stage)
unfolding notify_row
notify-stage now g ch r = ground arith

-- A call keeps the policy, and writes the stage of its kind or none.
change-stage :
    (c : Call) (e : Entry) (g : Generation) (ch : Change)
    → change_of c e g ≡ ok ch
    → ((row_of ch).desired_policy ≡ g.desired_policy)
      × (((row_of ch).stage ≡ g.stage) ⊎ NewStage c (row_of ch).stage)
unfolding change_of
change-stage (Commands.preallocate now candidate) e g ch r = preallocate-stage now candidate g ch r
change-stage (Commands.link now store id) e g ch r =
    elim (link_row-cases now id (verify_loaded e g (store id)) g r) [
      | inl found ↦ rw found.2 (refl, inl refl)
      | inr found ↦ rw found.4 (unfold linked activate in (refl, inr refl))
    ]
change-stage (Commands.finish_call now kind o) e g ch r =
    let same : ch ≡ changed (finish_row now kind o g) = cc in rw same (finish-stage now kind o g)
change-stage (Commands.advance now stage val pub_id) e g ch r =
    elim (advance_row-cases now stage val pub_id g r) [
      | inl found ↦ rw found.1 (refl, inl refl)
      | inr found ↦ rw found.2 (unfold advanced activate in (refl, inr refl))
    ]
change-stage (Commands.notify now) e g ch r =
    let (same, stage) = notify-stage now g ch r in (same, inl stage)

within-allowed : (p : Policy) (stage : Stage) → AllowsStage p stage → WithinStage p stage
within-allowed p detection h = tt
within-allowed p run_admission h = tt
within-allowed p run h = tt
within-allowed p stopped h = tt
within-allowed p validation_admission h = h
within-allowed p validation h = h
within-allowed p publication h = h

-- Every row of the ledger stands at a stage that its policy asks for.
abbrev pub AllWithin : Document → Type 0
AllWithin d = (key : Text) (n : ℕ) (g : Generation) → row? key n d ≡ some g → IsWithin g

module _ {W : Type 0} (h : Host) (v : Services W) (Came : Generation → Type 0) where
  NewStage-within :
      (e : Entry) (p : Policy) (c : Call) (s : Stage)
      → Fits v e p Came c
      → NewStage c s
      → WithinStage p s
  NewStage-within e p (Commands.preallocate now candidate) s fits new = rw new tt
  NewStage-within e p (Commands.link now store id) s fits new = rw new tt
  NewStage-within e p (Commands.finish_call now kind o) s fits new = rw new tt
  NewStage-within e p (Commands.advance now stage val pub_id) s fits new =
      rw new (within-allowed p stage fits)
  NewStage-within e p (Commands.notify now) s fits new = cc

  change-IsWithin :
      (e e' : Entry) (c : Call) (g : Generation) (ch : Change)
      → Fits v e' g.desired_policy Came c
      → IsWithin g
      → change_of c e g ≡ ok ch
      → IsWithin (row_of ch)
  change-IsWithin e e' c g ch fits within r =
      let (same, stage) = change-stage c e g ch r in
      rw same (elim stage [
        | inl kept ↦ rw kept within
        | inr new ↦ NewStage-within e' g.desired_policy c (row_of ch).stage fits new
      ])

  -- The row of a call that fits stays within its policy.
  called-IsWithin :
      (key : Text) (n : ℕ) (e' : Entry) (c : Call) (d after : Document) (old g : Generation)
      → run_call h key n c d ≡ ok (g, after)
      → row? key n d ≡ some old
      → Fits v e' old.desired_policy Came c
      → IsWithin old
      → IsWithin g
  called-IsWithin key n e' c d after old g r before fits within =
      let (tested, u) = run_call-Updated h key n c d after g r in
      let at = Updated-before h key n (change_of c) d after g u in
      let same : old ≡ u.old = cc in
      let reply = u.reply in
      rw reply (
        change-IsWithin u.entry e' c u.old u.change
          (subst (λ x. Fits v e' x.desired_policy Came c) same fits)
          (subst (λ x. IsWithin x) same within) u.changes)

  exec-AllWithin :
      (key : Text) (n : ℕ) (e' : Entry) (c : Call) (d : Document) (old : Generation)
      → row? key n d ≡ some old
      → Fits v e' old.desired_policy Came c
      → AllWithin d
      → AllWithin (exec h (key, n, c) d)
  unfolding exec
  exec-AllWithin key n e' c d old before fits all k m x found =
      elim (Result-cases (run_call h key n c d)) [
        | inr (y, r) ↦ all k m x (rw r at found)
        | inl (pair, r) ↦
            let (loads, now, stepped, others) = run_call_lem h key n c d pair.1 pair.0 r in
            let there : row? k m pair.1 ≡ some x = rw r at found in
            elim (same_place key k n m) [
              | inr ne ↦ all k m x (sym (others k m ne) ∙ there)
              | inl (a, b) ↦
                  let again : row? key n pair.1 ≡ some x = rw (a, b) there in
                  let same : pair.0 ≡ x = cc in
                  subst (λ y. IsWithin y) same
                    (called-IsWithin key n e' c d pair.1 old pair.0 r before fits
                      (all key n old before))
            ]
      ]

  pub exec_all-AllWithin :
      (e : Entry) (n : ℕ) (calls : List (Text × ℕ × Call)) (d : Document) (g : Generation)
      → load h d ≡ ok d
      → row? e.key n d ≡ some g
      → AllOwn v e g.desired_policy Came n calls
      → AllWithin d
      → AllWithin (exec_all h calls d)
  unfolding exec_all
  exec_all-AllWithin e n [] d g loads found own all = all
  exec_all-AllWithin e n ((k, m, c) ∷ rest) d g loads found (a, b, fits, own) all =
      let d' = exec h (e.key, n, c) d in
      let (g', found', reach) = exec-Lives h (e.key, n, c) d e.key n g found in
      let w = row?-WellFormed h d e.key n g loads found in
      let same = (Reach-Monotone h.platform.iso n g g' w reach).same_policy in
      rw (a, b)
        (exec_all-AllWithin e n rest d' g' (exec-loads h (e.key, n, c) d loads) found' (rw same own)
          (exec-AllWithin e.key n e c d g found fits all))
