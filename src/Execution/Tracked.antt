-- ===== src/Execution/Tracked.antt =====
-- debbuilder/execution_manager.py: a lease that tracks a Run tracks it until it ends.
use deb_builder.Base.{
  ℕ, ◌≡◌, refl, Bool, true, false, not, ◌&&◌, ◌||◌, Text, ◌=t◌, =t_sound, =t_refl, List, [], ◌∷◌,
  Option, none, some, Option-cases, ltb, ◌==◌, ==_iff, sym, subst, arith, Bool-cases, inl, inr,
}
use deb_builder.Cancellation.{Control}
use deb_builder.Execution.Manager.{
  Manager, has_token, with_run, is_run, run_of, drop_token, forget_token, start, require_accepting,
  require_capacity, require_not_submitted,
}
use deb_builder.Execution.Admission.{
  reserve, submit, submit_reserved, track, is_other, transfer, release_begin, capture, settle,
  enqueue_persisted, enqueue_failed, confirm, resolve_failed_creation,
}
use deb_builder.Execution.Worker.{
  cancel, round, stop, unused, settle_all, capture_all, freeze, ask_shutdown, begin_shutdown,
  resolved_kind, record_result, end_run,
}
use deb_builder.Execution.Counts.{has_token-drop_token}
use deb_builder.Execution.Stored.{cancel_loaded}
use deb_builder.Execution.Trace.{
  Event, starts, reserves, submits, submits_reserved, persists, fails_to_persist, tracks, confirms,
  transfers, resolves, releases, cancels, cancels_loaded, stops, begins_shutdown, records, works,
  ends_run, happen, happen_all,
}

-- The token has been given out, and if it has a lease then the lease tracks the Run.
abbrev pub tracks_run : ℕ → Text → Manager → Bool
tracks_run t r m =
    ltb t m.next_token
    && (not (has_token t m.admission_leases) || is_run r (run_of t m.reservation_run_ids))

has_token-drop_token_le :
    (t u : ℕ) (tokens : List ℕ)
    → has_token t tokens ≡ false
    → has_token t (drop_token u tokens) ≡ false
unfolding drop_token
has_token-drop_token_le t u [] h = refl
has_token-drop_token_le t u (v ∷ tokens) h = ground (arith, has_token-drop_token_le t u tokens)

run_of-forget_token :
    (t u : ℕ) (owned : List (ℕ × Text))
    → t == u ≡ false
    → run_of t (forget_token u owned) ≡ run_of t owned
unfolding run_of forget_token
run_of-forget_token t u [] n = refl
run_of-forget_token t u ((v, r) ∷ owned) n = ground (arith, run_of-forget_token t u owned)

settle_tracks :
    (t : ℕ) (r : Text) (u : ℕ) (m : Manager)
    → tracks_run t r m ≡ true
    → tracks_run t r (settle u m) ≡ true
unfolding settle
settle_tracks t r u m h = elim (Bool-cases (t == u)) [
  | inl same ↦ ground (arith, same, has_token-drop_token t m.admission_leases)
  | inr other ↦ ground (
    arith,
    run_of-forget_token t u m.reservation_run_ids other,
    has_token-drop_token_le t u m.admission_leases,
  )
]

settle_all_tracks :
    (t : ℕ) (r : Text) (tokens : List ℕ) (m : Manager)
    → tracks_run t r m ≡ true
    → tracks_run t r (settle_all tokens m) ≡ true
unfolding settle_all
settle_all_tracks t r [] m h = h
settle_all_tracks t r (u ∷ tokens) m h =
    settle_all_tracks t r tokens (settle u m) (settle_tracks t r u m h)

capture_all_tracks :
    (t : ℕ) (r : Text) (runs : List Text) (m : Manager)
    → tracks_run t r m ≡ true
    → tracks_run t r (capture_all runs m) ≡ true
unfolding capture_all capture
capture_all_tracks t r [] m h = h
capture_all_tracks t r (s ∷ runs) m h = capture_all_tracks t r runs (capture s m) h

shutdown_tracks :
    (t : ℕ) (r now : Text) (c : Option Control) (m : Manager)
    → tracks_run t r m ≡ true
    → tracks_run t r (ask_shutdown now c m) ≡ true
unfolding ask_shutdown
shutdown_tracks t r now none m h = h
shutdown_tracks t r now (some c) m h = ground arith

freeze_tracks :
    (t : ℕ) (r : Text) (m : Manager) → tracks_run t r m ≡ true → tracks_run t r (freeze m) ≡ true
unfolding freeze
freeze_tracks t r m h = ground (
  arith,
  capture_all_tracks t r m.queue
      (record m { shutdown_started = true; accepting = false; stopping = true }) h,
)

begin_shutdown_tracks :
    (t : ℕ) (r now : Text) (a : Bool) (m : Manager)
    → tracks_run t r m ≡ true
    → tracks_run t r (begin_shutdown now a m) ≡ true
unfolding begin_shutdown
begin_shutdown_tracks t r now a m h = ground (
  arith,
  freeze_tracks t r m h,
  shutdown_tracks t r now (freeze m).active_control
      (record (freeze m) { shutdown_active_requested = true }),
)

-- A lease is tracked again only with the Run that it tracks.
track_tracks :
    (t : ℕ) (r : Text) (u : ℕ) (s : Text) (m : Manager)
    → tracks_run t r m ≡ true
    → has_token u m.admission_leases ≡ true
    → is_other s (run_of u m.reservation_run_ids) ≡ false
    → t == u ≡ true
    → r =t s ≡ true
track_tracks t r u s m h leased own same =
    let eq : u ≡ t = sym ((==_iff t u).0 same) in
    let leased' = subst (λ x. has_token x m.admission_leases ≡ true) eq leased in
    let own' = subst (λ x. is_other s (run_of x m.reservation_run_ids) ≡ false) eq own in
    elim (Option-cases (run_of t m.reservation_run_ids)) [
      | inl e ↦ absurd (ground (arith, h, leased', e))
      | inr (o, e) ↦
          let a : r =t o ≡ true = ground (arith, h, leased', e) in
          let b : s =t o ≡ true = ground (arith, own', e) in
          rw (=t_sound r o a, =t_sound s o b) (=t_refl o)
    ]

persist_tracks :
    (t : ℕ) (r s : Text) (u : ℕ) (m : Manager)
    → tracks_run t r m ≡ true
    → tracks_run t r (enqueue_persisted s (some u) m) ≡ true
unfolding enqueue_persisted capture settle
persist_tracks t r s u m h = elim (Bool-cases m.shutdown_started) [
  | inl on ↦ rw on (settle_tracks t r u m h)
  | inr off ↦ rw off (settle_tracks t r u m h)
]

happen_tracks :
    (t : ℕ) (r : Text) (m : Manager) (e : Event)
    → tracks_run t r m ≡ true
    → tracks_run t r (happen m e) ≡ true
unfolding happen start reserve require_accepting require_capacity require_not_submitted submit
    submit_reserved track transfer release_begin confirm resolve_failed_creation enqueue_failed
    enqueue_persisted capture cancel cancel_loaded stop round end_run record_result resolved_kind
    run_of
happen_tracks t r m (starts b a) h = ground arith
happen_tracks t r m reserves h = ground arith
happen_tracks t r m (submits s) h = ground arith
happen_tracks t r m (submits_reserved u s) h = ground arith
happen_tracks t r m (persists s none) h = ground arith
happen_tracks t r m (persists s (some u)) h = ground (arith, persist_tracks t r s u m h)
happen_tracks t r m (fails_to_persist s u b) h = ground arith
happen_tracks t r m (tracks u s) h =
    ground (arith, track_tracks t r u s m h, run_of-forget_token t u m.reservation_run_ids)
happen_tracks t r m (confirms shown u s) h = ground (arith, settle_tracks t r u m h)
happen_tracks t r m (transfers u s) h = ground (
  arith,
  settle_tracks t r u
      (record m {
        unresolved_admission = with_run s m.unresolved_admission;
        shutdown_failures = with_run s m.shutdown_failures;
      })
      h,
)
happen_tracks t r m (resolves a b c u s) h = ground (arith, settle_tracks t r u m h)
happen_tracks t r m (releases u) h = ground (arith, settle_tracks t r u m h)
happen_tracks t r m (cancels now p s) h = ground arith
happen_tracks t r m (cancels_loaded now run s) h = ground arith
happen_tracks t r m stops h =
    settle_all_tracks t r (unused m.reservation_run_ids m.admission_leases) _ h
happen_tracks t r m (begins_shutdown now a) h = begin_shutdown_tracks t r now a m h
happen_tracks t r m (records k s b) h = ground arith
happen_tracks t r m works h = ground arith
happen_tracks t r m (ends_run s a b) h = ground arith

pub happen_all_tracks :
    (t : ℕ) (r : Text) (m : Manager) (es : List Event)
    → tracks_run t r m ≡ true
    → tracks_run t r (happen_all m es) ≡ true
unfolding happen_all
happen_all_tracks t r m [] h = h
happen_all_tracks t r m (e ∷ es) h = happen_all_tracks t r (happen m e) es (happen_tracks t r m e h)
