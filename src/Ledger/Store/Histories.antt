-- ===== src/Ledger/Store/Histories.antt =====
-- debbuilder/automation_ledger.py: what any sequence of calls of the operations does to the ledger.
use deb_builder.Base.{
  ℕ, ◌≡◌, ◌≢◌, sym, subst, subst₂, ◌∙◌, ◌⊎◌, inl, inr, true, Text, List, [], ◌∷◌, ◌++◌, refl, some,
  Result, ok, err, ◌=t◌, =t_sound, =t_refl, Bool-cases, Result-cases,
}
use native.Mathlib.Decide.{ℕ_discrete}
use deb_builder.Ledger.Row.{Error, Generation}
use deb_builder.Ledger.Rows.Lifecycle.{Step, Reach, here, next, Monotone, Reach-Monotone}
use deb_builder.Ledger.Validate.{Iso}
use deb_builder.Ledger.Document.{Document}
use deb_builder.Ledger.Store.{Host, load}
use deb_builder.Ledger.Store.Update.{row?, Updated-loads, Updated-others}
use deb_builder.Ledger.Store.Commands.{
  Call, change_of, run_call, run_call-Updated, called_row, row?-WellFormed,
}

-- One call against the ledger on disk; a call that raises leaves it alone.
abbrev pub outcome : Document → Result Error (Generation × Document) → Document
outcome disk (ok (g, after)) = after
outcome disk (err e) = disk

unfoldable pub exec : Host → Text × ℕ × Call → Document → Document
exec h (key, n, c) disk = outcome disk (run_call h key n c disk)

-- Calls one after the other, as the ledger's lock makes them.
unfoldable pub exec_all : Host → List (Text × ℕ × Call) → Document → Document
exec_all h [] disk = disk
exec_all h (c ∷ rest) disk = exec_all h rest (exec h c disk)

-- A ledger that loads, before and after a call.
pub exec-loads :
    (h : Host) (c : Text × ℕ × Call) (disk : Document)
    → load h disk ≡ ok disk
    → load h (exec h c disk) ≡ ok (exec h c disk)
unfolding exec
exec-loads h (key, n, c) disk loads = elim (Result-cases (run_call h key n c disk)) [
  | inl (pair, r) ↦
      let (t, u) = run_call-Updated h key n c disk pair.1 pair.0 r in
      rw r (Updated-loads h key n (change_of c) disk pair.1 pair.0 u)
  | inr (e, r) ↦ rw r loads
]

-- Where row `n` of `key` has come to.
abbrev pub Lives : Host → Text → ℕ → Generation → Document → Type 0
Lives h key n g after =
    (g' : Generation) × (row? key n after ≡ some g') × Reach h.platform.iso n g g'

pub same_place : (k key : Text) (m n : ℕ) → ((k ≡ key) × (m ≡ n)) ⊎ ((key ≢ k) ⊎ (n ≢ m))
same_place k key m n = elim (Bool-cases (k =t key)) [
  | inr other ↦ inr (inl (λ e. cc (other, subst (λ j. k =t j ≡ true) (sym e) (=t_refl k))))
  | inl same ↦ elim (ℕ_discrete m n) [
    | yes e ↦ inl (=t_sound k key same, e)
    | no ne ↦ inr (inr (λ e. ne (sym e)))
  ]
]

own_row :
    (h : Host) (k : Text) (m : ℕ) (c : Call) (disk after : Document) (g reply : Generation)
    → run_call h k m c disk ≡ ok (reply, after)
    → row? k m disk ≡ some g
    → Lives h k m g after
own_row h k m c disk after g reply r found =
    let (old, before, now, step) = called_row h k m c disk after reply r in
    let same : old ≡ g = cc in
    (reply, now, next here (subst (λ x. Step h.platform.iso m x reply) same step))

other_row :
    (h : Host) (k : Text) (m : ℕ) (c : Call) (disk after : Document) (g reply : Generation)
    (key : Text) (n : ℕ)
    → (key ≢ k) ⊎ (n ≢ m)
    → run_call h k m c disk ≡ ok (reply, after)
    → row? key n disk ≡ some g
    → Lives h key n g after
other_row h k m c disk after g reply key n ne r found =
    let (t, u) = run_call-Updated h k m c disk after reply r in
    (g, Updated-others h k m (change_of c) disk after reply u key n ne ∙ found, here)

-- A row survives a call, by a step if the call is its own and unchanged otherwise.
pub exec-Lives :
    (h : Host) (c : Text × ℕ × Call) (disk : Document) (key : Text) (n : ℕ) (g : Generation)
    → row? key n disk ≡ some g
    → Lives h key n g (exec h c disk)
unfolding exec
exec-Lives h (k, m, c) disk key n g found = elim (Result-cases (run_call h k m c disk)) [
  | inr (e, r) ↦ (g, rw r found, here)
  | inl (pair, r) ↦ rw r (elim (same_place k key m n) [
    | inl (a, b) ↦
        subst₂ (λ j i. row? j i disk ≡ some g → Lives h j i g pair.1) a b
          (own_row h k m c disk pair.1 g pair.0 r) found
    | inr ne ↦ other_row h k m c disk pair.1 g pair.0 key n ne r found
  ])
]

pub Reach-trans :
    {iso : Iso} {n : ℕ} {g h k : Generation} → Reach iso n g h → Reach iso n h k → Reach iso n g k
Reach-trans a here = a
Reach-trans a (next b s) = next (Reach-trans a b) s

pub exec_all-Lives :
    (h : Host) (calls : List (Text × ℕ × Call)) (disk : Document) (key : Text) (n : ℕ)
    (g : Generation)
    → row? key n disk ≡ some g
    → Lives h key n g (exec_all h calls disk)
unfolding exec_all
exec_all-Lives h [] disk key n g found = (g, found, here)
exec_all-Lives h (c ∷ rest) disk key n g found =
    let (g₁, found₁, life₁) = exec-Lives h c disk key n g found in
    let (g₂, found₂, life₂) = exec_all-Lives h rest (exec h c disk) key n g₁ found₁ in
    (g₂, found₂, Reach-trans life₁ life₂)

pub exec_all-append :
    (h : Host) (xs ys : List (Text × ℕ × Call)) (disk : Document)
    → exec_all h (xs ++ ys) disk ≡ exec_all h ys (exec_all h xs disk)
unfolding exec_all
exec_all-append h [] ys disk = refl
exec_all-append h (c ∷ xs) ys disk = exec_all-append h xs ys (exec h c disk)

-- One call, by how it ended.
pub exec-one :
    (h : Host) (key : Text) (n : ℕ) (c : Call) (disk : Document)
    → exec_all h ((key, n, c) ∷ []) disk ≡ outcome disk (run_call h key n c disk)
unfolding exec_all exec
exec-one h key n c disk = refl

-- From a ledger that loads, any calls, failing or not, leave a ledger that loads.
pub exec_all-loads :
    (h : Host) (calls : List (Text × ℕ × Call)) (disk : Document)
    → load h disk ≡ ok disk
    → load h (exec_all h calls disk) ≡ ok (exec_all h calls disk)
unfolding exec_all
exec_all-loads h [] disk loads = loads
exec_all-loads h (c ∷ rest) disk loads =
    exec_all-loads h rest (exec h c disk) (exec-loads h c disk loads)

-- Every generation of a ledger that loads is still there after any calls on any generations, and has
-- kept its policy, its times of detection and creation, the Run that was preallocated or linked, and
-- the presence of its Validation and Publication links.
pub exec_all-Monotone :
    (h : Host) (calls : List (Text × ℕ × Call)) (disk : Document) (key : Text) (n : ℕ)
    (g : Generation)
    → load h disk ≡ ok disk
    → row? key n disk ≡ some g
    → (g' : Generation) × (row? key n (exec_all h calls disk) ≡ some g') × Monotone g g'
exec_all-Monotone h calls disk key n g loads found =
    let (g', found', life) = exec_all-Lives h calls disk key n g found in
    (
      g',
      found',
      Reach-Monotone h.platform.iso n g g' (row?-WellFormed h disk key n g loads found) life,
    )
