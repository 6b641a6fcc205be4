-- ===== src/Orchestrator/Logic/Rules.antt =====
-- debbuilder/automation_orchestrator.py: the rules by which the methods are shown to make only calls
-- that the policy allows.
use deb_builder.Base.{
  ℕ, ◌≡◌, refl, sym, ◌∙◌, subst, ap, Bool, true, false, Text, List, [], ◌∷◌, ◌++◌, Option, none,
  some, inl, inr, Result, ok, err, if◌then◌else◌, arith, Result-cases,
}
use deb_builder.Ledger.Row.{Generation}
use deb_builder.Ledger.Rows.Lifecycle.{Reach-Monotone}
use deb_builder.Ledger.Document.{Document}
use deb_builder.Ledger.Store.Update.{row?}
use deb_builder.Ledger.Store.Commands.{Call, run_call, run_call_lem, row?-WellFormed}
use deb_builder.Ledger.Store.Histories.{
  exec_all, exec_all-loads, exec_all-Lives, exec_all-append, exec-one, outcome, Reach-trans,
}
use deb_builder.Orchestrator.Services.{Services, Raised, Reads, Asks}
use deb_builder.Orchestrator.Effects.{
  System, Action, give, throw, reads, asks, caught, when, ◌>>=◌, ◌>>◌, ledger_call, read_ledger,
  with_lease,
}
use deb_builder.Orchestrator.Logic.{
  AllOwn, Fits, Setting, policy, Came, Holds, IsRow, Did, Does, Any,
}

module _ {W : Type 0} (c : Setting W) where
  Own-append :
      (xs ys : List (Text × ℕ × Call))
      → AllOwn c.services c.entry (policy c) (Came c) c.n xs
      → AllOwn c.services c.entry (policy c) (Came c) c.n ys
      → AllOwn c.services c.entry (policy c) (Came c) c.n (xs ++ ys)
  Own-append [] ys a b = b
  Own-append ((k, m, x) ∷ xs) ys (k₁, m₁, x₁, rest) b = (k₁, m₁, x₁, Own-append xs ys rest b)

  Did-none : (d : Document) → Did c d d
  Did-none d = ([], tt, unfold exec_all in refl)

  Did-trans : (x y z : Document) → Did c x y → Did c y z → Did c x z
  Did-trans x y z (xs, ox, ex) (ys, oy, ey) = (
    xs ++ ys,
    Own-append xs ys ox oy,
    ey ∙ ap (exec_all c.host ys) ex ∙ sym (exec_all-append c.host xs ys x),
  )

  pub Did-Holds : (a b : Document) → Did c a b → Holds c a → Holds c b
  Did-Holds a b (xs, ox, ex) (loads, (g, found, reach)) =
      let (g', found', reach') = exec_all-Lives c.host xs a c.entry.key c.n g found in
      rw ex (exec_all-loads c.host xs a loads, (g', found', Reach-trans reach reach'))

  -- The row on a ledger on which the claim has lived on.
  pub Holds-IsRow :
      (d : Document) (r : Generation) → Holds c d → row? c.entry.key c.n d ≡ some r → IsRow c r
  Holds-IsRow d r (loads, (g, found, reach)) is =
      let same : g ≡ r = cc in
      let w = row?-WellFormed c.host d c.entry.key c.n r loads is in
      let m = Reach-Monotone c.host.platform.iso c.n c.start g c.is_formed reach in
      (
        w.position,
        subst (λ x. x.desired_policy ≡ c.start.desired_policy) same m.same_policy,
        subst (Came c) same reach,
      )

  module _ {A : Type 0} where
    pub does_give : {P : A → Type 0} (a : A) → P a → Does c (give a) P
    unfolding give
    does_give {P} a q = record { does = λ s i. (Did-none s.disk, λ b eq. subst P (cc) q) }

    pub does_throw : {P : A → Type 0} (x : Raised) → Does c (throw {A = A} x) P
    unfolding throw
    does_throw x = record { does = λ s i. (Did-none s.disk, λ b eq. cc) }

    pub does_if :
        {P : A → Type 0} (b : Bool) (x y : Action W A)
        → (b ≡ true → Does c x P)
        → (b ≡ false → Does c y P)
        → Does c (if b then x else y) P
    does_if true x y f k = f refl
    does_if false x y f k = k refl

    pub does_weaken :
        {P Q : A → Type 0} (m : Action W A) → Does c m P → ((a : A) → P a → Q a) → Does c m Q
    does_weaken m d f = record {
      does = λ s i. let (did, post) = d.does s i in (did, λ a eq. f a (post a eq));
    }

    -- A call of a collaborator leaves the ledger alone; what it answered, it answered in some state.
    pub does_reads : (f : Reads W A) → Does c (reads f) (λ a. (w : W) × ((f w).0 ≡ a))
    unfolding reads
    does_reads f = record { does = λ s i. (Did-none s.disk, λ a eq. (s.world, cc)) }

    pub does_asks : (f : Asks W A) → Does c (asks f) (λ a. (w : W) × ((f w).0 ≡ ok a))
    unfolding asks
    does_asks f = record { does = λ s i. (Did-none s.disk, λ a eq. (s.world, cc)) }

    pub does_caught :
        {P : A → Type 0} (m : Action W A)
        → Does c m P
        → Does c (caught m) (λ r. (a : A) → r ≡ ok a → P a)
    unfolding caught
    does_caught m d = record {
      does = λ s i. let (did, post) = d.does s i in (did, λ r eq a is. post a (cc));
    }

    bind_from :
        {B : Type 0} {P : A → Type 0} {Q : B → Type 0} (k : A → Action W B) (d : Document)
        (q : Result Raised A × System W)
        → ((a : A) → P a → Does c (k a) Q)
        → Holds c d
        → Did c d q.1.disk
        → ((a : A) → q.0 ≡ ok a → P a)
        → let m : Action W A = λ _. q in
          Did c d ((m >>= k) q.1).1.disk × ((b : B) → ((m >>= k) q.1).0 ≡ ok b → Q b)
    unfolding ◌>>=◌
    bind_from k d (ok a, s') dk i did post =
        let (did', post') = (dk a (post a refl)).does s' (Did-Holds d s'.disk did i) in
        (Did-trans d s'.disk (k a s').1.disk did did', post')
    bind_from k d (err x, s') dk i did post = (did, λ b eq. cc)

    pub does_bind :
        {B : Type 0} {P : A → Type 0} {Q : B → Type 0} (m : Action W A) (k : A → Action W B)
        → Does c m P
        → ((a : A) → P a → Does c (k a) Q)
        → Does c (m >>= k) Q
    unfolding ◌>>=◌
    does_bind m k dm dk = record {
      does = λ s i. let (did, post) = dm.does s i in bind_from k s.disk (m s) dk i did post;
    }

    lease_from :
        {P : A → Type 0} (m : Action W A) (s : System W) (q : Result Raised (Unit {0}) × W)
        → Does c m P
        → Holds c s.disk
        → let u : Services W = record c.services { enter_lease = λ _. q } in
          Did c s.disk (with_lease c.host u m s).1.disk
          × ((a : A) → (with_lease c.host u m s).0 ≡ ok a → P a)
    unfolding with_lease
    lease_from m s (ok _, w) d i = d.does (record s { world = w }) i
    lease_from m s (err x, w) d i = (Did-none s.disk, λ b eq. cc)

    pub does_lease :
        {P : A → Type 0} (m : Action W A) → Does c m P → Does c (with_lease c.host c.services m) P
    unfolding with_lease
    does_lease m d = record { does = λ s i. lease_from m s (c.services.enter_lease s.world) d i }

    pub does_then :
        {B : Type 0} {P : A → Type 0} {Q : B → Type 0} (m : Action W A) (k : Action W B)
        → Does c m P
        → Does c k Q
        → Does c (m >> k) Q
    unfolding ◌>>◌
    does_then m k dm dk = does_bind m (λ _. k) dm (λ a q. dk)

  -- `try`, by how its body ended.
  pub does_try :
      {A B : Type 0} {P : A → Type 0} {Q : B → Type 0} (m : Action W A)
      (k : Result Raised A → Action W B)
      → Does c m P
      → ((x : Raised) → Does c (k (err x)) Q)
      → ((a : A) → P a → Does c (k (ok a)) Q)
      → Does c (caught m >>= k) Q
  does_try {A = A} {P = P} {Q = Q} m k d raises returns =
      does_bind (caught m) k (does_caught m d) (λ r post.
        elim r as (λ r. ((a : A) → r ≡ ok a → P a) → Does c (k r) Q) [
          | ok a ↦ λ post. returns a (post a refl)
          | err x ↦ λ post. raises x
        ]
          post)

  pub does_maybe :
      {A B : Type 0} {P : Option A → Type 0} {Q : B → Type 0} (m : Action W (Option A))
      (k : Option A → Action W B)
      → Does c m P
      → (P none → Does c (k none) Q)
      → ((a : A) → P (some a) → Does c (k (some a)) Q)
      → Does c (m >>= k) Q
  does_maybe {P = P} {Q = Q} m k d absent present =
      does_bind m k d (λ r post.
        elim r as (λ r. P r → Does c (k r) Q) [ none ↦ absent | some a ↦ present a ] post)

  -- A row with how the body of a `try` ended.
  pub does_pair :
      {A B : Type 0} {P : Generation × Result Raised A → Type 0} {Q : B → Type 0}
      (m : Action W (Generation × Result Raised A)) (k : Generation × Result Raised A → Action W B)
      → Does c m P
      → ((g : Generation) (x : Raised) → P (g, err x) → Does c (k (g, err x)) Q)
      → ((g : Generation) (a : A) → P (g, ok a) → Does c (k (g, ok a)) Q)
      → Does c (m >>= k) Q
  does_pair {A = A} {P = P} {Q = Q} m k d raises returns = does_bind m k d (λ (g, r) post.
      elim r as (λ r. P (g, r) → Does c (k (g, r)) Q) [ ok a ↦ returns g a | err x ↦ raises g x ]
        post)

  -- The last action, whose value is dropped.
  pub does_last :
      {A : Type 0} {P : A → Type 0} (m : Action W A)
      → Does c m P
      → Does c (m >>= λ _. give tt) (Any c)
  does_last m d = does_bind m (λ _. give tt) d (λ a q. does_give tt tt)

  pub does_when :
      (b : Bool) (m : Action W (Unit {0}))
      → (b ≡ true → Does c m (Any c))
      → Does c (when b m) (Any c)
  unfolding when
  does_when true m f = f refl
  does_when false m f = does_give tt tt

  one_call :
      (g : Generation) (x : Call) (d : Document)
      → IsRow c g
      → Fits c.services c.entry (policy c) (Came c) x
      → Did c d (outcome d (run_call c.host c.entry.key g.generation x d))
  one_call g x d row fits = (
    (c.entry.key, g.generation, x) ∷ [],
    (refl, row.0, fits, tt),
    sym (exec-one c.host c.entry.key g.generation x d),
  )

  ledger_from :
      (g : Generation) (call : Text → Call)
      → IsRow c g
      → ((now : Text) → Fits c.services c.entry (policy c) (Came c) (call now))
      → (s : System W) → Holds c s.disk
      → let m = ledger_call c.host c.services c.entry.key g.generation call in
        Did c s.disk (m s).1.disk × ((a : Generation) → (m s).0 ≡ ok a → IsRow c a)
  unfolding ledger_call
  ledger_from g call row fits s i =
      let x = call (c.services.utc_now s.world).0 in
      let did = one_call g x s.disk row (fits (c.services.utc_now s.world).0) in
      elim (Result-cases (run_call c.host c.entry.key g.generation x s.disk)) [
        | inr (y, r) ↦ rw r (Did-none s.disk, λ a eq. cc)
        | inl (pair, r) ↦
            let (loads, found, stepped, others) =
              run_call_lem c.host c.entry.key g.generation x s.disk pair.1 pair.0 r in
            let now : Did c s.disk pair.1 = rw r at did in
            let there : row? c.entry.key c.n pair.1 ≡ some pair.0 = rw row.0 at found in
            let is = Holds-IsRow pair.1 pair.0 (Did-Holds s.disk pair.1 now i) there in
            rw r (now, λ a eq. let same : pair.0 ≡ a = cc in subst (λ x. IsRow c x) same is)
      ]

  pub does_ledger :
      (g : Generation) (call : Text → Call)
      → IsRow c g
      → ((now : Text) → Fits c.services c.entry (policy c) (Came c) (call now))
      → Does c (ledger_call c.host c.services c.entry.key g.generation call) (IsRow c)
  does_ledger g call row fits = record { does = λ s i. ledger_from g call row fits s i }

  pub does_read :
      Does c
        (read_ledger c.host c.services)
        (λ d. (r : Generation) → row? c.entry.key c.n d ≡ some r → IsRow c r)
  unfolding read_ledger
  does_read = record {
    does = λ s i. (
      Did-none s.disk,
      λ d eq r found.
          let loads = i.0 in
          let same : s.disk ≡ d = ground (arith, loads) in Holds-IsRow d r (rw same at i) found,
    );
  }
