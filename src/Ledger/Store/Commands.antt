-- ===== src/Ledger/Store/Commands.antt =====
-- debbuilder/automation_ledger.py: the operations on one generation as commands, and what any run of
-- them does to a row.
use deb_builder.Base.{
  ℕ, ◌≡◌, ◌≢◌, refl, ◌⊎◌, inl, inr, Text, Option, some, arith, Result, ok, Option-cases, >>=-eq-ok,
}
use deb_builder.Ledger.Row.{Error, Generation, Stage, Classification}
use deb_builder.Ledger.Rows.{
  Change, kept, changed, row_of, preallocate_row, link_row, finish_row, advance_row,
  check_active_stage, notify_row, Outcome,
}
use deb_builder.Ledger.Rows.Accepted.{link_row-cases, advance_row-cases}
use deb_builder.Ledger.Rows.Lifecycle
use deb_builder.Ledger.Rows.Lifecycle.{Step, Reach, here, next, Monotone, Reach-Monotone}
use deb_builder.Ledger.Validate.Table.{WellFormed}
use deb_builder.Ledger.Validate.Exact.{validate_generation-ok_iff}
use deb_builder.Ledger.Document.{Entry, Document}
use deb_builder.Ledger.Store.{
  Host, load, find_entry, Loaded, verify_loaded, update, preallocate_run, link_run, finish,
  advance_lifecycle, mark_completion_notified,
}
use deb_builder.Ledger.Store.Valid.{Valid-find, AllWellFormed-get}
use deb_builder.Ledger.Store.Update.{
  row?, Updated, update-Updated, Updated-before, Updated-loads, Updated-row, Updated-others,
  load-Valid,
}

-- A call of one of the operations, with the clock reading that it makes.
pub data Call : Type 0 where
  preallocate : Text → Text → Call
  link : Text → (Text → Loaded) → Text → Call
  finish_call : Text → Classification → Outcome → Call
  advance : Text → Stage → Option Text → Option Text → Call
  notify : Text → Call

-- What a call does to the row that it finds.
unfoldable pub change_of : Call → Entry → Generation → Result Error Change
change_of (preallocate now candidate) e g = preallocate_row now candidate g
change_of (link now store id) e g = link_row now id (verify_loaded e g (store id)) g
change_of (finish_call now c o) e g = ok (changed (finish_row now c o g))
change_of (advance now stage val pub_id) e g = advance_row now stage val pub_id g
change_of (notify now) e g = notify_row now g

unfoldable pub run_call : Host → Text → ℕ → Call → Document → Result Error (Generation × Document)
run_call h key n (preallocate now candidate) = preallocate_run h now candidate key n
run_call h key n (link now store id) = link_run h now store key n id
run_call h key n (finish_call now c o) = finish h now key n c o
run_call h key n (advance now stage val pub_id) = advance_lifecycle h now key n stage val pub_id
run_call h key n (notify now) = mark_completion_notified h now key n

-- The stage that `advance_lifecycle` has tested before it opens the ledger.
abbrev pub StageTested : Call → Type 0
StageTested (advance now stage val pub_id) = check_active_stage stage ≡ ok tt
StageTested _ = Unit {0}

pub run_call-Updated :
    (h : Host) (key : Text) (n : ℕ) (c : Call) (disk after : Document) (g : Generation)
    → run_call h key n c disk ≡ ok (g, after)
    → StageTested c × Updated h key n (change_of c) disk after g
unfolding run_call preallocate_run link_run finish advance_lifecycle mark_completion_notified
    change_of
run_call-Updated h key n (preallocate now candidate) disk after g r =
    (tt, update-Updated h key n (change_of (preallocate now candidate)) disk after g r)
run_call-Updated h key n (link now store id) disk after g r =
    (tt, update-Updated h key n (change_of (link now store id)) disk after g r)
run_call-Updated h key n (finish_call now c o) disk after g r =
    (tt, update-Updated h key n (change_of (finish_call now c o)) disk after g r)
run_call-Updated h key n (advance now stage val pub_id) disk after g r =
    let f = change_of (advance now stage val pub_id) in
    let (u, tested, rest) = >>=-eq-ok (check_active_stage stage) (λ _. update h key n f disk) r in
    (tested, update-Updated h key n f disk after g rest)
run_call-Updated h key n (notify now) disk after g r =
    (tt, update-Updated h key n (change_of (notify now)) disk after g r)

-- A row that is returned without a write is the row that was found.
preallocate_kept :
    (now candidate : Text) (g x : Generation)
    → preallocate_row now candidate g ≡ ok (kept x)
    → x ≡ g
unfolding preallocate_row
preallocate_kept now candidate g x r = ground arith

notify_kept : (now : Text) (g x : Generation) → notify_row now g ≡ ok (kept x) → x ≡ g
unfolding notify_row
notify_kept now g x r = ground arith

change_of_kept :
    (c : Call) (e : Entry) (old x : Generation) → change_of c e old ≡ ok (kept x) → x ≡ old
unfolding change_of
change_of_kept (preallocate now candidate) e g x r = preallocate_kept now candidate g x r
change_of_kept (link now store id) e g x r =
    elim (link_row-cases now id (verify_loaded e g (store id)) g r) [
      | inl found ↦ cc (found.2)
      | inr found ↦ cc (found.4)
    ]
change_of_kept (finish_call now c o) e g x r = cc
change_of_kept (advance now stage val pub_id) e g x r =
    elim (advance_row-cases now stage val pub_id g r) [
      | inl found ↦ cc (found.1)
      | inr found ↦ cc (found.2)
    ]
change_of_kept (notify now) e g x r = notify_kept now g x r

-- The row of a call is a step of the row's life.
call-Step :
    (h : Host) (n : ℕ) (c : Call) (e : Entry) (old g : Generation) (ch : Change)
    → StageTested c
    → change_of c e old ≡ ok ch
    → g ≡ row_of ch
    → WellFormed h.platform.iso n g
    → Step h.platform.iso n old g
unfolding change_of
call-Step h n (preallocate now candidate) e old g ch t r same w =
    Lifecycle.preallocate now candidate ch r same
      ((validate_generation-ok_iff h.platform.iso n g g).1 (w, refl))
call-Step h n (link now store id) e old g ch t r same w =
    Lifecycle.link now id (verify_loaded e old (store id)) ch r same
      ((validate_generation-ok_iff h.platform.iso n g g).1 (w, refl))
call-Step h n (finish_call now c o) e old g ch t r same w =
    Lifecycle.finish now c o (cc) ((validate_generation-ok_iff h.platform.iso n g g).1 (w, refl))
call-Step h n (advance now stage val pub_id) e old g ch t r same w =
    Lifecycle.advance now stage val pub_id ch t r same
      ((validate_generation-ok_iff h.platform.iso n g g).1 (w, refl))
call-Step h n (notify now) e old g ch t r same w =
    Lifecycle.notify now ch r same ((validate_generation-ok_iff h.platform.iso n g g).1 (w, refl))

-- A row of a ledger that loads is well formed.
pub row?-WellFormed :
    (h : Host) (d : Document) (key : Text) (n : ℕ) (g : Generation)
    → load h d ≡ ok d
    → row? key n d ≡ some g
    → WellFormed h.platform.iso n g
unfolding row?
row?-WellFormed h d key n g loads r = elim (Option-cases (find_entry key d.attempts)) [
  | inl absent ↦ absurd (ground (arith, absent))
  | inr (e, found) ↦
      let (valid, same) = load-Valid h d d loads in
      let (before, v) = Valid-find h.platform h.bounds d key e valid found in
      AllWellFormed-get h.platform.iso 0 n n e.generations g (omega arith) v.generations
        (rw found at r)
]

-- The row at the place of a call has taken one step.
pub called_row :
    (h : Host) (key : Text) (n : ℕ) (c : Call) (disk after : Document) (g : Generation)
    → run_call h key n c disk ≡ ok (g, after)
    → (old : Generation) × (row? key n disk ≡ some old)
      × (row? key n after ≡ some g)
      × Step h.platform.iso n old g
called_row h key n c disk after g r =
    let (t, u) = run_call-Updated h key n c disk after g r in
    let f = change_of c in
    let now = Updated-row h key n f disk after g u (change_of_kept c) in
    let loads = Updated-loads h key n f disk after g u in
    (
      u.old,
      Updated-before h key n f disk after g u,
      now,
      call-Step h n c u.entry u.old g u.change t u.changes u.reply
          (row?-WellFormed h after key n g loads now),
    )

-- A call that succeeds leaves a ledger that loads, in which the row that it returned stands, one step
-- from the row that stood there before, and every other row of the ledger is as it was.
pub run_call_lem :
    (h : Host) (key : Text) (n : ℕ) (c : Call) (disk after : Document) (g : Generation)
    → run_call h key n c disk ≡ ok (g, after)
    → (load h after ≡ ok after)
      × (row? key n after ≡ some g)
      × ((old : Generation) × (row? key n disk ≡ some old) × Step h.platform.iso n old g)
      × ((k : Text) (m : ℕ) → (k ≢ key) ⊎ (m ≢ n) → row? k m after ≡ row? k m disk)
run_call_lem h key n c disk after g r =
    let (t, u) = run_call-Updated h key n c disk after g r in
    let f = change_of c in
    let (old, before, now, step) = called_row h key n c disk after g r in
    (
      Updated-loads h key n f disk after g u,
      now,
      (old, before, step),
      Updated-others h key n f disk after g u,
    )
