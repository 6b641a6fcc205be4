-- ===== src/Cancellation.antt =====
-- debbuilder/execution_cancellation.py: `CancellationControl`, which settles cancellation against
-- terminalization once. Each method runs under the control's lock, so it is one step.
pub mod Settle
use deb_builder.Base.{
  Bool, true, false, not, Text, codes, truthy, Option, none, some, Result, ok, err, if◌then◌else◌,
}

pub data Owner : Type 0 where
  unowned cancellation_owned terminal_owned : Owner

pub data Refused : Type 0 where
  empty_reason : Refused

-- The request, whose code is always "execution_cancelled".
pub record Request : Type 0 where
  pub reason : Text
  pub requested_at : Text

pub record Control : Type 0 where
  pub owner : Owner
  pub request : Option Request
  pub event : Bool

-- The dictionary that `request_cancel` returns.
pub record Answer : Type 0 where
  pub accepted : Bool
  pub first_request : Bool
  pub owner : Owner
  pub cancellation : Option Request

unfoldable pub new_control : Control
new_control = record { owner = unowned; request = none; event = false }

cancel_owned : Owner → Text → Text → Control → Answer × Control
cancel_owned terminal_owned reason now c = (
  record { accepted = false; first_request = false; owner = terminal_owned; cancellation = none },
  c,
)
cancel_owned unowned reason now c =
    let r : Option Request = some (record { reason = reason; requested_at = now }) in
    (
      record {
        accepted = true;
        first_request = true;
        owner = cancellation_owned;
        cancellation = r;
      },
      record { owner = cancellation_owned; request = r; event = true },
    )
cancel_owned cancellation_owned reason now c = (
  record {
    accepted = true;
    first_request = false;
    owner = cancellation_owned;
    cancellation = c.request;
  },
  c,
)

unfoldable pub request_cancel : Text → Text → Control → Result Refused (Answer × Control)
unfolding cancel_owned
request_cancel reason now c =
    if truthy reason then ok (cancel_owned c.owner reason now c) else err empty_reason

claim_owned : Owner → Control → Bool × Control
claim_owned unowned c = (true, record c { owner = terminal_owned })
claim_owned _ c = (false, c)

unfoldable pub claim_terminal : Control → Bool × Control
unfolding claim_owned
claim_terminal c = claim_owned c.owner c

-- `result.get("cancellation_requested") or result.get("status") == "cancelled"` of
-- `raise_for_cancelled_result`, with the two values read.
unfoldable pub raises_for_result : Bool → Bool → Bool
raises_for_result requested cancelled = if requested then true else cancelled
