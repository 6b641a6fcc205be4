-- ===== src/Maintenance/Trace.antt =====
-- debbuilder/maintenance.py: what holds of the worker under any requests, stops and wakings.
use deb_builder.Base.{◌≡◌, ◌⊎◌, Bool, true, false, ◌||◌, List, [], ◌∷◌, arith}
use deb_builder.Maintenance.{
  Service, new_service, request, stop, Place, waiting, gone, working, Worker, wake, end_round,
}

-- A call of a client, or the worker's next step with the clock's or the inventory's answer.
pub data Event : Type 0 where
  asked : Bool → Bool → Event
  stopped : Event
  advances : Bool → Event

advance : Bool → Place → Service → Worker
advance answer waiting s = wake answer s
advance answer (working r c) s = end_round answer s
advance answer gone s = record { service = s; place = gone }

unfoldable pub happen : Worker → Event → Worker
unfolding advance
happen w (asked r c) = record w { service = request r c w.service }
happen w stopped = record w { service = stop w.service }
happen w (advances answer) = advance answer w.place w.service

unfoldable pub happen_all : Worker → List Event → Worker
happen_all w [] = w
happen_all w (e ∷ es) = happen_all (happen w e) es

abbrev pub start : Worker
start = record { service = new_service; place = waiting }

-- The flags fit the place of the worker, and a stopped service asks for nothing.
abbrev Fits : Place → Service → Type 0
Fits waiting s = (s.pass_active ≡ false) × (s.accept_followup ≡ false)
Fits (working r c) s = (s.pass_active ≡ true) × ((r || c) ≡ true)
Fits gone s = (s.stop_requested ≡ true) × (s.pass_active ≡ false) × (s.accept_followup ≡ false)

pub record IsConsistent (w : Worker) : Type 0 where
  pub fits : Fits w.place w.service
  pub quiet_stop :
      w.service.stop_requested ≡ true
      → (w.service.refresh_requested ≡ false) × (w.service.cleanup_requested ≡ false)
  pub quiet_followup :
      w.service.pass_active ≡ true
      → w.service.accept_followup ≡ false
      → (w.service.refresh_requested ≡ false) × (w.service.cleanup_requested ≡ false)

happen-IsConsistent : (w : Worker) (e : Event) → IsConsistent w → IsConsistent (happen w e)
unfolding happen request stop wake end_round
happen-IsConsistent w (asked r c) h = ground arith
happen-IsConsistent w stopped h = ground arith
happen-IsConsistent w (advances a) h = ground arith

happen_all-keeps : (w : Worker) (es : List Event) → IsConsistent w → IsConsistent (happen_all w es)
unfolding happen_all
happen_all-keeps w [] h = h
happen_all-keeps w (e ∷ es) h = happen_all-keeps (happen w e) es (happen-IsConsistent w e h)

-- After any events on a new service its flags fit the place of the worker: a pass is marked active
-- exactly while the worker is in a round, each round has something to do, a stopped service has no
-- request, and neither has a pass whose follow-up is used up.
pub happen_all-IsConsistent : (es : List Event) → IsConsistent (happen_all start es)
unfolding new_service
happen_all-IsConsistent es = happen_all-keeps start es (ground arith)

-- A request is granted outside a pass, and in a pass while its follow-up is open.
abbrev pub Grants : Service → Type 0
Grants s = (s.stop_requested ≡ false) × ((s.pass_active ≡ false) ⊎ (s.accept_followup ≡ true))

-- What the worker does next covers what was asked for.
abbrev pub Covers : Bool → Bool → Place → Type 0
Covers r c (working r' c') = (r ≡ true → r' ≡ true) × (c ≡ true → c' ≡ true)
Covers r c waiting = ⊥
Covers r c gone = ⊥

-- In a consistent service that grants a request, a request that asks for something is not lost:
-- the worker's next step begins a round that covers it, whatever the clock or the inventory says.
pub request_served :
    (w : Worker) (r c answer : Bool)
    → IsConsistent w
    → Grants w.service
    → (r || c) ≡ true
    → Covers r c (happen (happen w (asked r c)) (advances answer)).place
unfolding happen request wake end_round
request_served w r c answer h g some_work = ground arith

-- After a stop the worker's next step ends it, and no request is taken any more.
pub stop_ends :
    (w : Worker) (answer r c : Bool)
    → ((happen (happen w stopped) (advances answer)).place ≡ gone)
      × (happen (happen w stopped) (asked r c) ≡ happen w stopped)
unfolding happen stop request wake end_round
stop_ends w answer r c = (ground arith, ground arith)

-- In a pass whose follow-up is used up no request changes the service, and unless the inventory
-- needs a refresh the pass ends with the round.
pub followup_ends :
    (w : Worker) (r c : Bool)
    → IsConsistent w
    → w.service.stop_requested ≡ false
    → w.service.pass_active ≡ true
    → w.service.accept_followup ≡ false
    → (happen w (asked r c) ≡ w) × ((happen w (advances false)).place ≡ waiting)
unfolding happen request wake end_round
followup_ends w r c h running active used = (ground arith, ground arith)
