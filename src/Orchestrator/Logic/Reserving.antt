-- ===== src/Orchestrator/Logic/Reserving.antt =====
-- debbuilder/automation_orchestrator.py, automation_ledger.py: the reservation of a Run makes only calls
-- on its claim, and finds the identity owned only if the store has shown such a Run.
use deb_builder.Base.{ℕ, ◌≡◌, refl, Bool, true, false, not, Text, Option, none, some, truthy?}
use deb_builder.Ledger.Row.{Generation}
use deb_builder.Ledger.Document.{Document}
use deb_builder.Ledger.Store.{Loaded, unreadable, loaded}
use deb_builder.Ledger.Store.Update.{row?}
use deb_builder.Orchestrator.Reserving.{
  Reconciled, link_created, discard, reconcile_loaded, reconcile_row, reconcile_preallocated_run,
  preallocate, reserve, is_owned, row_in,
}
use deb_builder.Orchestrator.Logic.{Setting, policy, Came, IsRow, Does, Any, GoesOn, Evidence}
use deb_builder.Orchestrator.Logic
use deb_builder.Orchestrator.Logic.Rules.{
  does_give, does_throw, does_if, does_reads, does_asks, does_bind, does_ledger, does_read,
}

module _ {W : Type 0} (c : Setting W) where
  abbrev IsReconciled : Reconciled → Type 0
  IsReconciled r = IsRow c r.row

  pub does_link_created :
      (g : Generation) (id : Text)
      → IsRow c g
      → Does c (link_created c.host c.services c.entry g id) (IsRow c)
  unfolding link_created
  does_link_created g id row =
      does_bind c _ _ (does_reads c _) (λ found q. does_ledger c g _ row (λ now. tt))

  does_discard :
      (g : Generation) (id : Text)
      → IsRow c g
      → Does c (discard c.host c.services g id) IsReconciled
  unfolding discard
  does_discard g id row =
      does_bind c _ _ (does_asks c _)
        (λ o q. does_if c o _ _ (λ b. does_give c _ row) (λ b. does_throw c _))

  does_reconcile_loaded :
      (g : Generation) (id : Text) (found : Loaded)
      → IsRow c g
      → Does c (reconcile_loaded c.host c.services c.entry g id found) IsReconciled
  unfolding reconcile_loaded
  does_reconcile_loaded g id unreadable row = does_throw c _
  does_reconcile_loaded g id (loaded none) row =
      does_bind c _ _ (does_reads c _)
        (λ o q. does_if c o _ _ (λ b. does_discard g id row) (λ b. does_give c _ row))
  does_reconcile_loaded g id (loaded (some r)) row =
      does_bind c _ _ (does_link_created g id row) (λ g' q. does_give c _ q)

  does_reconcile_row :
      (found : Option Generation)
      → ((g : Generation) → found ≡ some g → IsRow c g)
      → Does c (reconcile_row c.host c.services c.entry found) IsReconciled
  unfolding reconcile_row
  does_reconcile_row none is = does_throw c _
  does_reconcile_row (some g) is =
      let row = is g refl in
      does_if c (truthy? g.run_id) _ _ (λ b. does_give c _ row)
        (λ b.
          does_if c (not (truthy? g.preallocated_run_id)) _ _ (λ b. does_give c _ row)
            (λ b.
              does_bind c _ _ (does_reads c _) (λ found q. does_reconcile_loaded g _ found row)))

  pub read-IsRow :
      (d : Document) (m : ℕ)
      → m ≡ c.n
      → ((r : Generation) → row? c.entry.key c.n d ≡ some r → IsRow c r)
      → (g : Generation) → row_in c.entry.key m d ≡ some g
      → IsRow c g
  unfolding row? row_in
  read-IsRow d m same q g is = q g (rw same at is)

  does_reconcile_preallocated :
      (m : ℕ)
      → m ≡ c.n
      → Does c (reconcile_preallocated_run c.host c.services c.entry m) IsReconciled
  unfolding reconcile_preallocated_run
  does_reconcile_preallocated m same =
      does_bind c _ _ (does_read c)
        (λ d q. does_reconcile_row (row_in c.entry.key m d) (read-IsRow d m same q))

  pub does_reserve :
      (g : Generation) → IsRow c g → Does c (reserve c.host c.services c.entry g) (IsRow c)
  unfolding reserve preallocate
  does_reserve g row =
      does_if c (truthy? g.preallocated_run_id) _ _
        (λ b.
          does_bind c _ _ (does_reconcile_preallocated g.generation row.0)
            (λ r q. does_give c r.row q))
        (λ b. does_bind c _ _ (does_reads c _) (λ id q. does_ledger c g _ row (λ now. tt)))

  -- What the store showed when a Run owns the identity.
  abbrev pub Owns : Bool → Type 0
  Owns b = b ≡ true → Evidence c.services c.entry (policy c) (Came c)

  pub does_is_owned :
      (g : Generation) → IsRow c g → Does c (is_owned c.host c.services c.entry g) Owns
  unfolding is_owned
  does_is_owned g row =
      does_if c (truthy? g.preallocated_run_id) _ _ (λ b. does_give c false (λ eq. cc))
        (λ b.
          does_bind c _ _ (does_asks c _)
            (λ runs (w, answer). does_give c _ (λ eq. Logic.owned_run w g runs answer row.2 eq)))
