-- ===== src/Orchestrator/Effects.antt =====
-- debbuilder/automation_orchestrator.py: a method of the orchestrator as an action on the ledger on
-- disk and the state of the collaborators. What was written before a raise stays written.
use deb_builder.Base.{ℕ, ◌≡◌, refl, ap, Bool, Text, Result, ok, err, if◌then◌else◌}
use deb_builder.Ledger.Row.{Error, Generation}
use deb_builder.Ledger.Document.{Document}
use deb_builder.Ledger.Store.{Host, load}
use deb_builder.Ledger.Store.Commands.{Call, run_call}
use deb_builder.Orchestrator.Services.{Raised, ledger_error, Asks, Reads, Services}

pub record System (W : Type 0) : Type 0 where
  pub disk : Document
  pub world : W

abbrev pub Action : Type 0 → Type 0 → Type 0
Action W A = System W → Result Raised A × System W

module _ {W A : Type 0} where
  unfoldable pub give : A → Action W A
  give a s = (ok a, s)

  unfoldable pub throw : Raised → Action W A
  throw e s = (err e, s)

  abbrev placed : Document → A × W → Result Raised A × System W
  placed d (a, w) = (ok a, record { disk = d; world = w })

  abbrev answered : Document → Result Raised A × W → Result Raised A × System W
  answered d (r, w) = (r, record { disk = d; world = w })

  -- A call of a collaborator.
  unfoldable pub reads : Reads W A → Action W A
  reads f s = placed s.disk (f s.world)

  unfoldable pub asks : Asks W A → Action W A
  asks f s = answered s.disk (f s.world)

  -- `try: … except Exception as exc: …`, with what the branches do left to the caller
  unfoldable pub caught : Action W A → Action W (Result Raised A)
  caught m s = let (r, s') = m s in (ok r, s')

infixl 5 ◌>>=◌ ◌>>◌
unfoldable pub ◌>>=◌ : {W A B : Type 0} → Action W A → (A → Action W B) → Action W B
◌>>=◌ m k s = let (r, s') = m s in elim r [ ok a ↦ k a s' | err e ↦ (err e, s') ]

bound-ok :
    {W A B : Type 0} (q : Result Raised A × System W) (k : A → Action W B) (b : B)
    → (elim q.0 as (λ _. Result Raised B × System W) [ ok a ↦ k a q.1 | err e ↦ (err e, q.1) ]).0
      ≡ ok b
    → (a : A) × (q.0 ≡ ok a) × ((k a q.1).0 ≡ ok b)
bound-ok (ok a, s) k b h = (a, refl, h)
bound-ok (err e, s) k b h = cc

-- A sequence that returns: the value between.
pub >>=-ok :
    {W A B : Type 0} (m : Action W A) (k : A → Action W B) (s : System W) (b : B)
    → ((m >>= k) s).0 ≡ ok b
    → (a : A) × ((m s).0 ≡ ok a) × ((k a (m s).1).0 ≡ ok b)
unfolding ◌>>=◌
>>=-ok m k s b h = bound-ok (m s) k b h

bound-split :
    {W A B : Type 0} (q : Result Raised A × System W) (k : A → Action W B) (b : B) (t : System W)
    → elim q.0 as (λ _. Result Raised B × System W) [ ok a ↦ k a q.1 | err e ↦ (err e, q.1) ]
      ≡ (ok b, t)
    → (a : A) × (q ≡ (ok a, q.1)) × (k a q.1 ≡ (ok b, t))
bound-split (ok a, s) k b t h = (a, refl, h)
bound-split (err e, s) k b t h = cc

-- The same with the state in which it ends.
pub >>=-split :
    {W A B : Type 0} (m : Action W A) (k : A → Action W B) (s : System W) (b : B) (t : System W)
    → (m >>= k) s ≡ (ok b, t)
    → (a : A) × (m s ≡ (ok a, (m s).1)) × (k a (m s).1 ≡ (ok b, t))
unfolding ◌>>=◌
>>=-split m k s b t h = bound-split (m s) k b t h

-- A sequence whose first action is known to return.
pub >>=-of :
    {W A B : Type 0} (m : Action W A) (k : A → Action W B) (s t : System W) (a : A)
    → m s ≡ (ok a, t)
    → (m >>= k) s ≡ k a t
unfolding ◌>>=◌
>>=-of {W = W} {B = B} m k s t a is =
    ap
      (λ q. elim q.0 as (λ _. Result Raised B × System W) [ ok a ↦ k a q.1 | err e ↦ (err e, q.1) ])
      is

-- A call of a collaborator whose answer is known, with what comes after it.
module _ {W A B : Type 0} (f : Asks W A) (k : A → Action W B) (s : System W) (w : W) where
  abbrev resumed : Result Raised A × W → Result Raised B × System W
  resumed q =
      let (r, s') = answered s.disk q in
      elim r as (λ _. Result Raised B × System W) [ ok a ↦ k a s' | err e ↦ (err e, s') ]

  pub asks-err :
      (e : Raised) → f s.world ≡ (err e, w) → (asks f >>= k) s ≡ (err e, record s { world = w })
  unfolding asks ◌>>=◌
  asks-err e is = ap resumed is

  pub asks-ok : (a : A) → f s.world ≡ (ok a, w) → (asks f >>= k) s ≡ k a (record s { world = w })
  unfolding asks ◌>>=◌
  asks-ok a is = ap resumed is

unfoldable pub ◌>>◌ : {W A B : Type 0} → Action W A → Action W B → Action W B
m >> k = m >>= λ _. k

abbrev pub raised : {A : Type 0} → Result Error A → Result Raised A
raised (ok a) = ok a
raised (err e) = err (ledger_error e)

module _ {W : Type 0} where
  unfoldable pub when : Bool → Action W (Unit {0}) → Action W (Unit {0})
  when test m = if test then m else give tt

  abbrev written :
      W → Document → Result Error (Generation × Document) → Result Raised Generation × System W
  written w d (ok (g, d')) = (ok g, record { disk = d'; world = w })
  written w d (err e) = (err (ledger_error e), record { disk = d; world = w })

  module _ (h : Host) (v : Services W) where
    -- ledger.read()
    unfoldable pub read_ledger : Action W Document
    read_ledger s = (raised (load h s.disk), s)

    -- One operation of the ledger on a generation, with the clock reading that it makes.
    unfoldable pub ledger_call : Text → ℕ → (Text → Call) → Action W Generation
    ledger_call key n call s =
        let (now, w) = v.utc_now s.world in written w s.disk (run_call h key n (call now) s.disk)

    -- with self.mutation_lease(): …
    unfoldable pub with_lease : {A : Type 0} → Action W A → Action W A
    with_lease m s =
        let (r, s') = answered s.disk (v.enter_lease s.world) in
        elim r [
          | err e ↦ (err e, s')
          | ok _ ↦ let (r', s'') = m s' in (r', record s'' { world = v.leave_lease s''.world })
        ]

written-ok :
    {W : Type 0} (w : W) (d : Document) (q : Result Error (Generation × Document)) (g : Generation)
    (t : System W)
    → written w d q ≡ (ok g, t)
    → q ≡ ok (g, t.disk)
written-ok w d (ok (g', d')) g t h =
    let row = ap (λ x. x.0) h in let state = ap (λ x. x.1.disk) h in cc
written-ok w d (err e) g t h = let no = ap (λ x. x.0) h in absurd (cc)

-- A call of the ledger that returns.
pub ledger_call-ok :
    {W : Type 0} (h : Host) (v : Services W) (key : Text) (n : ℕ) (call : Text → Call)
    (s t : System W) (g : Generation)
    → ledger_call h v key n call s ≡ (ok g, t)
    → run_call h key n (call (v.utc_now s.world).0) s.disk ≡ ok (g, t.disk)
unfolding ledger_call
ledger_call-ok h v key n call s t g eq = written-ok _ _ _ g t eq

pub ledger_call-of :
    {W : Type 0} (h : Host) (v : Services W) (key : Text) (n : ℕ) (call : Text → Call)
    (s : System W) (g : Generation) (d : Document)
    → run_call h key n (call (v.utc_now s.world).0) s.disk ≡ ok (g, d)
    → ledger_call h v key n call s ≡ (ok g, record { disk = d; world = (v.utc_now s.world).1 })
unfolding ledger_call
ledger_call-of h v key n call s g d is = ap (written (v.utc_now s.world).1 s.disk) is
