-- ===== src/Execution/Release.antt =====
-- debbuilder/execution_manager.py: how the lease of a reservation ends.
use deb_builder.Base.{
  ℕ, ◌<◌, ◌≡◌, refl, Bool, true, false, not, ◌||◌, Text, =t_refl, List, Option, none, some, ltb,
  arith, Bool-cases, inl, inr, Result, ok, if◌then◌else◌,
}
use deb_builder.Execution.Manager.{Manager, Error, has_run, has_token, is_run, with_run, run_of}
use deb_builder.Execution.Admission.{
  is_owned, transfer, confirm, settle, begin_leased, release_begin,
}
use deb_builder.Execution.Counts.{has_token-drop_token}
use deb_builder.Execution.Accounts.{has_run-with_run_self}
use deb_builder.Execution.Trace.{Event, happen_all}
use deb_builder.Execution.Tracked.{tracks_run, happen_all_tracks}

-- What follows the first section: `es` happens before the condition is taken to confirm that the Run is
-- terminal, which `terminal` says of the store, and `es'` before it is taken to transfer the Run.
unfoldable pub release_rest :
    Option Text → List Event → List Event → Bool → ℕ → Manager → Result Error Manager
release_rest none es es' terminal t m = ok m
release_rest (some r) es es' terminal t m =
    let (settled, m') = confirm terminal t r (happen_all m es) in
    if settled then ok m' else transfer t r (happen_all m' es')

-- `_release_reservation`
unfoldable pub release : List Event → List Event → Bool → ℕ → Manager → Result Error Manager
release es es' terminal t m =
    let (left, m') = release_begin t m in release_rest left es es' terminal t m'

abbrev pub ended_between : ℕ → Manager → Bool
ended_between t between = not (has_token t between.admission_leases)

-- Where the Run of a lease, if it has one, is afterwards: with the manager, terminal in the store, or
-- among the admissions that shutdown has to resolve; or another section had ended the lease before the
-- last one began, on the manager `between`.
abbrev pub is_kept : Bool → ℕ → Option Text → Manager → Manager → Bool
is_kept terminal t none between after = true
is_kept terminal t (some r) between after =
    is_owned r after || terminal || has_run r after.unresolved_admission || ended_between t between

confirm_ends :
    (t : ℕ) (r : Text) (m : Manager)
    → tracks_run t r m ≡ true
    → ((confirm true t r m).0 ≡ true)
      × (has_token t (confirm true t r m).1.admission_leases ≡ false)
unfolding confirm settle
confirm_ends t r m h = elim (Bool-cases (is_run r (run_of t m.reservation_run_ids))) [
  | inl own ↦ (ground (arith, own), ground (arith, own, has_token-drop_token t m.admission_leases))
  | inr other ↦ (ground (arith, other, h), ground (arith, other, h))
]

transfer_ends :
    (t : ℕ) (r : Text) (m : Manager)
    → tracks_run t r m ≡ true
    → (m' : Manager) × (transfer t r m ≡ ok m')
      × (has_token t m'.admission_leases ≡ false)
      × (has_run r m'.unresolved_admission || ended_between t m ≡ true)
unfolding transfer settle
transfer_ends t r m h = elim (Bool-cases (has_token t m.admission_leases)) [
  | inr gone ↦ (m, ground (arith, gone), gone, ground (arith, gone))
  | inl leased ↦ (
    settle t (record m {
      unresolved_admission = with_run r m.unresolved_admission;
      shutdown_failures = with_run r m.shutdown_failures;
    }),
    ground (arith, h, leased),
    has_token-drop_token t m.admission_leases,
    ground (arith, has_run-with_run_self r m.unresolved_admission),
  )
]

rest_ends :
    (es es' : List Event) (terminal : Bool) (t : ℕ) (r : Text) (m : Manager)
    → tracks_run t r m ≡ true
    → (m' : Manager) × (release_rest (some r) es es' terminal t m ≡ ok m')
      × (has_token t m'.admission_leases ≡ false)
      × (is_kept terminal t (some r) (happen_all (happen_all m es) es') m' ≡ true)
unfolding release_rest
rest_ends es es' true t r m h =
    let (did, ends) = confirm_ends t r (happen_all m es) (happen_all_tracks t r m es h) in
    ((confirm true t r (happen_all m es)).1, rw did refl, ends, ground arith)
rest_ends es es' false t r m h =
    let later = happen_all_tracks t r (happen_all m es) es' (happen_all_tracks t r m es h) in
    let (m', e, ends, left) = transfer_ends t r (happen_all (happen_all m es) es') later in
    (m', unfold confirm in e, ends, ground (arith, left))

leased_ends :
    (tracked : Option Text) (es es' : List Event) (terminal : Bool) (t : ℕ) (m : Manager)
    → run_of t m.reservation_run_ids ≡ tracked
    → ltb t m.next_token ≡ true
    → let left = begin_leased tracked t m in
      (m' : Manager) × (release_rest left.0 es es' terminal t left.1 ≡ ok m')
      × (has_token t m'.admission_leases ≡ false)
      × (is_kept terminal t tracked (happen_all (happen_all m es) es') m' ≡ true)
unfolding begin_leased
leased_ends none es es' terminal t m e given = (
  settle t m,
  unfold release_rest in refl,
  unfold settle in has_token-drop_token t m.admission_leases,
  refl,
)
leased_ends (some r) es es' terminal t m e given = elim (Bool-cases (is_owned r m)) [
  | inl own ↦ rw own (
    settle t m,
    unfold release_rest in refl,
    unfold settle in has_token-drop_token t m.admission_leases,
    unfold settle in ground (arith, own),
  )
  | inr free ↦ rw free (rest_ends es es' terminal t r m (ground (arith, e, given, =t_refl r)))
]

-- Releasing a reservation never raises, whatever happens between its sections and whatever became of
-- its Run, and its token has no lease afterwards. If it had a lease that tracked a Run, then this Run
-- is owned by the manager when the release ends, or is terminal in the store, or is among the
-- unresolved admissions, unless another section had ended the lease before the last section began.
pub release_lem :
    (es es' : List Event) (terminal : Bool) (t : ℕ) (m : Manager)
    → t < m.next_token
    → (m' : Manager) × (release es es' terminal t m ≡ ok m')
      × (has_token t m'.admission_leases ≡ false)
      × (has_token t m.admission_leases ≡ true
          → is_kept terminal t
              (run_of t m.reservation_run_ids)
              (happen_all (happen_all m es) es')
              m'
            ≡ true)
unfolding release release_begin
release_lem es es' terminal t m given = elim (Bool-cases (has_token t m.admission_leases)) [
  | inr gone ↦ (m, rw gone (unfold release_rest in refl), gone, λ leased. absurd cc)
  | inl leased ↦
      let (m', e, ends, keeps) =
        leased_ends (run_of t m.reservation_run_ids) es es' terminal t m refl (ground arith) in
      (m', rw leased e, ends, λ l. keeps)
]
