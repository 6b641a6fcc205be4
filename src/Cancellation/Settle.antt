-- ===== src/Cancellation/Settle.antt =====
-- debbuilder/execution_cancellation.py: whatever the callers do, one side wins, once.
use deb_builder.Base.{
  ℕ, suc, ◌≤◌, ◌≡◌, refl, ◌≢◌, ◌⊎◌, inl, inr, Bool, true, false, Text, List, [], ◌∷◌, none, arith,
  Result, ok, err, is_some, if◌then◌else◌, Bool-cases,
}
use deb_builder.Cancellation.{
  unowned, cancellation_owned, Refused, Control, Answer, new_control, request_cancel,
  claim_terminal,
}

-- A call, with the clock reading of a cancellation.
pub data Call : Type 0 where
  cancel : Text → Text → Call
  terminal : Call

after : Control → Result Refused (Answer × Control) → Control
after c (ok (a, c')) = c'
after c (err e) = c

unfoldable pub call : Control → Call → Control
unfolding after
call c (cancel reason now) = after c (request_cancel reason now c)
call c terminal = (claim_terminal c).1

unfoldable pub call_all : Control → List Call → Control
call_all c [] = c
call_all c (x ∷ xs) = call_all (call c x) xs

-- The call settles the control: it is the first request, or the claim that succeeds.
wins_cancel : Result Refused (Answer × Control) → Bool
wins_cancel (ok (a, c)) = a.first_request
wins_cancel (err e) = false

unfoldable pub wins : Control → Call → Bool
unfolding wins_cancel
wins c (cancel reason now) = wins_cancel (request_cancel reason now c)
wins c terminal = (claim_terminal c).0

unfoldable pub count_wins : Control → List Call → ℕ
count_wins c [] = 0
count_wins c (x ∷ xs) = let n = count_wins (call c x) xs in if wins c x then suc n else n

-- The event is set and the request is there exactly while cancellation owns the control.
abbrev pub IsConsistent : Control → Type 0
IsConsistent c =
    ((c.owner ≡ cancellation_owned) × (c.event ≡ true) × (is_some c.request ≡ true))
    ⊎ ((c.owner ≢ cancellation_owned) × (c.event ≡ false) × (c.request ≡ none))

call-IsConsistent : (c : Control) (x : Call) → IsConsistent c → IsConsistent (call c x)
unfolding call request_cancel claim_terminal
call-IsConsistent c (cancel reason now) h = ground arith
call-IsConsistent c terminal h = ground arith

call_all-keeps : (c : Control) (xs : List Call) → IsConsistent c → IsConsistent (call_all c xs)
unfolding call_all
call_all-keeps c [] h = h
call_all-keeps c (x ∷ xs) h = call_all-keeps (call c x) xs (call-IsConsistent c x h)

-- After any calls on a new control the event and the request agree with the owner.
pub call_all-IsConsistent : (xs : List Call) → IsConsistent (call_all new_control xs)
call_all-IsConsistent xs = call_all-keeps new_control xs (unfold new_control in ground arith)

call_owned : (c : Control) (x : Call) → c.owner ≢ unowned → (call c x ≡ c) × (wins c x ≡ false)
unfolding call wins request_cancel claim_terminal
call_owned c (cancel reason now) h = ground arith
call_owned c terminal h = ground arith

call_all_owned :
    (c : Control) (xs : List Call) → c.owner ≢ unowned → (call_all c xs ≡ c) × (count_wins c xs ≡ 0)
unfolding call_all count_wins
call_all_owned c [] h = (refl, refl)
call_all_owned c (x ∷ xs) h =
    let (same, lost) = call_owned c x h in
    let (rest, none_won) = call_all_owned c xs h in (rw same rest, rw (same, lost) none_won)

wins_owned : (c : Control) (x : Call) → wins c x ≡ true → (call c x).owner ≢ unowned
unfolding call wins request_cancel claim_terminal
wins_owned c (cancel reason now) h = ground arith
wins_owned c terminal h = ground arith

-- At most one call of any sequence wins, whatever the control was.
pub count_wins-le-one : (c : Control) (xs : List Call) → count_wins c xs ≤ 1
unfolding count_wins
count_wins-le-one c [] = omega arith
count_wins-le-one c (x ∷ xs) = elim (Bool-cases (wins c x)) [
  | inl won ↦ rw won (omega (arith, (call_all_owned (call c x) xs (wins_owned c x won)).1))
  | inr lost ↦ rw lost (count_wins-le-one (call c x) xs)
]

-- Once a call has won, no later calls change the control: its owner, request and event are final.
pub settled_stays :
    (c : Control) (x : Call) (xs : List Call) → wins c x ≡ true → call_all (call c x) xs ≡ call c x
settled_stays c x xs h = (call_all_owned (call c x) xs (wins_owned c x h)).0
