-- ===== src/Gate/Trace.antt =====
-- debbuilder/lifecycle.py: what holds of the gate under any interleaving of requests and shutdown.
use deb_builder.Base.{
  ℕ, ◌+◌, ◌-◌, ◌≤◌, ◌<◌, ◌≡◌, refl, ◌⊎◌, inl, inr, true, false, List, [], ◌∷◌, ◌++◌, Option, none,
  some, arith, ◌==◌, Result, ok, err, if◌then◌else◌, Bool-cases, ◌||◌, not, leb, ap,
}
use deb_builder.Gate.{
  Closed, Gate, new_gate, begin_shutdown, acquire, release, Report, wait_for_quiescence, report,
  expired,
}

-- A request enters, a request that holds a lease leaves, or shutdown begins.
pub data Event : Type 0 where
  enter leave shutdown : Event

-- The gate with the number of requests that hold a lease.
pub record World : Type 0 where
  pub gate : Gate
  pub held : ℕ

admitted : World → Result Closed Gate → World
admitted w (ok g) = record { gate = g; held = w.held + 1 }
admitted w (err e) = w

-- Only a request that holds a lease can leave.
unfoldable pub happen : World → Event → World
unfolding admitted
happen w enter = admitted w (acquire w.gate)
happen w leave = if w.held == 0 then w else record { gate = release w.gate; held = w.held - 1 }
happen w shutdown = record w { gate = begin_shutdown w.gate }

unfoldable pub happen_all : World → List Event → World
happen_all w [] = w
happen_all w (e ∷ es) = happen_all (happen w e) es

abbrev pub start : World
start = record { gate = new_gate; held = 0 }

happen_counts :
    (w : World) (e : Event) → w.gate.active ≡ w.held → (happen w e).gate.active ≡ (happen w e).held
unfolding happen acquire release begin_shutdown
happen_counts w e h = ground arith

happen_all_counts :
    (w : World) (es : List Event)
    → w.gate.active ≡ w.held
    → (happen_all w es).gate.active ≡ (happen_all w es).held
unfolding happen_all
happen_all_counts w [] h = h
happen_all_counts w (e ∷ es) h = happen_all_counts (happen w e) es (happen_counts w e h)

-- After any events the gate's count is the number of requests that hold a lease.
pub active-eq-held :
    (es : List Event) → (happen_all start es).gate.active ≡ (happen_all start es).held
unfolding new_gate
active-eq-held es = happen_all_counts start es refl

happen_closed :
    (w : World) (e : Event)
    → w.gate.accepting ≡ false
    → ((happen w e).gate.accepting ≡ false) × ((happen w e).held ≤ w.held)
unfolding happen acquire release begin_shutdown
happen_closed w e h = ground arith

-- Once shutdown has begun the gate stays closed, and no event adds a lease.
pub closed_stays :
    (w : World) (es : List Event)
    → w.gate.accepting ≡ false
    → ((happen_all w es).gate.accepting ≡ false) × ((happen_all w es).held ≤ w.held)
unfolding happen_all
closed_stays w [] h = (h, omega arith)
closed_stays w (e ∷ es) h =
    let (shut, fewer) = happen_closed w e h in
    let (shut', fewer') = closed_stays (happen w e) es shut in (shut', omega arith)

-- A waking at which the wait goes on: a mutation is active, and a deadline has not come.
abbrev pub GoesOn : Option ℕ → ℕ × Gate → Type 0
GoesOn none (now, g) = 0 < g.active
GoesOn (some d) (now, g) = (0 < g.active) × (now < d)

abbrev pub AllGoOn : Option ℕ → List (ℕ × Gate) → Type 0
AllGoOn deadline [] = Unit {0}
AllGoOn deadline (w ∷ rest) = GoesOn deadline w × AllGoOn deadline rest

-- A waking at which the wait ends: no mutation is active, or there is a deadline, and it has come.
abbrev pub Ends : Option ℕ → ℕ × Gate → Type 0
Ends none (now, g) = g.active ≡ 0
Ends (some d) (now, g) = (g.active ≡ 0) ⊎ ((0 < g.active) × (d ≤ now))

-- A report on the gate: its count, whether it is closed, complete exactly if nothing is active, and
-- timed out exactly if something is.
abbrev pub Reports : Gate → Report → Type 0
Reports g r =
    (r.active_mutations ≡ g.active)
    × (r.admission_closed ≡ not g.accepting)
    × (r.complete ≡ (g.active == 0))
    × (r.timed_out ≡ not (g.active == 0))

-- The wait has ended at one of the wakings.
abbrev pub Answers : Option ℕ → List (ℕ × Gate) → Report → Type 0
Answers deadline wakings r =
    (before : List (ℕ × Gate)) × (now : ℕ) × (g : Gate) × (later : List (ℕ × Gate)) × (wakings
      ≡ before ++ (now, g) ∷ later)
    × AllGoOn deadline before
    × Ends deadline (now, g)
    × Reports g r

after_waking :
    (deadline : Option ℕ) (w : ℕ × Gate) (later : List (ℕ × Gate)) (r : Report)
    → GoesOn deadline w
    → Answers deadline later r
    → Answers deadline (w ∷ later) r
after_waking deadline w later r on (before, now, g, rest, split, all, ends, reports) =
    (w ∷ before, now, g, rest, ap (λ l. w ∷ l) split, (on, all), ends, reports)

-- The answer of `wait_for_quiescence`, if it comes, is given at the first waking at which no mutation
-- is active or the deadline has come, and reports the gate of that waking: complete exactly if no
-- mutation was active, and timed out otherwise. Without a deadline it comes only when none is active.
pub wait_for_quiescence_lem :
    (deadline : Option ℕ) (wakings : List (ℕ × Gate)) (r : Report)
    → wait_for_quiescence deadline wakings ≡ some r
    → Answers deadline wakings r
unfolding wait_for_quiescence
wait_for_quiescence_lem deadline [] r h = cc
wait_for_quiescence_lem none ((now, g) ∷ later) r h = elim (Bool-cases (g.active == 0)) [
  | inl idle ↦ ([], now, g, later, refl, tt, ground (arith, idle), ground (arith, idle))
  | inr busy ↦
      after_waking none (now, g) later r (ground (arith, busy))
        (wait_for_quiescence_lem none later r (ground (arith, busy)))
]
wait_for_quiescence_lem (some d) ((now, g) ∷ later) r h =
    elim (Bool-cases (g.active == 0 || leb d now)) [
      | inl stop ↦ ([], now, g, later, refl, tt, ground (arith, stop), ground (arith, stop))
      | inr on ↦
          after_waking (some d) (now, g) later r (ground (arith, on))
            (wait_for_quiescence_lem (some d) later r (ground (arith, on)))
    ]

stop_test :
    (deadline : Option ℕ) (now : ℕ) (g : Gate)
    → (g.active ≡ 0) ⊎ ((d : ℕ) × (deadline ≡ some d) × (d ≤ now))
    → (g.active == 0 || expired deadline now) ≡ true
unfolding expired
stop_test deadline now g (inl idle) = ground (arith, idle)
stop_test deadline now g (inr (d, has, past)) = rw has (ground (arith, past))

-- With a deadline it answers at the latest when it wakes at or after it; without one, when it wakes
-- with no active mutation.
pub wait_for_quiescence_answers :
    (deadline : Option ℕ) (before after : List (ℕ × Gate)) (now : ℕ) (g : Gate)
    → (g.active ≡ 0) ⊎ ((d : ℕ) × (deadline ≡ some d) × (d ≤ now))
    → (r : Report) × (wait_for_quiescence deadline (before ++ (now, g) ∷ after) ≡ some r)
unfolding wait_for_quiescence
wait_for_quiescence_answers deadline [] after now g h =
    (report deadline g, rw (stop_test deadline now g h) refl)
wait_for_quiescence_answers deadline ((t, x) ∷ before) after now g h =
    elim (Bool-cases (x.active == 0 || expired deadline t)) [
      | inl early ↦ (report deadline x, rw early refl)
      | inr on ↦ rw on (wait_for_quiescence_answers deadline before after now g h)
    ]
