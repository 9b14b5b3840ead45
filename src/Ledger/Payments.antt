-- ===== src/Ledger/Payments.antt =====
-- libs/ledger/src/fulfillment.service.ts: `recordFulfillment` and `correctValue`.
pub mod Booking
pub mod Correction
pub mod Outcomes
pub mod Retry
use akabbo.Prelude.{ℕ, Bool, false, not, String, Option, none, some, [], ◌∷◌, if◌then◌else◌}
use akabbo.Prelude.Int.{ℤ, pos}
use akabbo.Prelude.Result.{not_entitled, not_found, cancelled_pledge}
use akabbo.Prelude.Tx.{Tx, pure, gets, lift, found, throw_if, ◌>>=◌, ◌>>◌}
use akabbo.Access.Permission.{fulfillment_write, fulfillment_correct}
use akabbo.Access.Gates.{OperationContext, gates}
use akabbo.Access.Entitlement.{Check, record_fulfillment as record_fulfillment_action}
use akabbo.Ledger.Money.{money_to_string}
use akabbo.Ledger.Status.{derive_status, outstanding}
use akabbo.Ledger.Tables.{
  Db, Pledge, FulfillmentKind, PaymentMethod, ProvenanceSource, manual_correction, text,
  status_name,
}
use akabbo.Ledger.Store.{
  find_pledge, find_fulfillment, sum_fulfillments, update_pledge, update_fulfillment, write_audit,
}
use akabbo.Ledger.Pledges.{Env, is_cancelled}
use akabbo.Ledger.Fulfillments.{
  FulfillmentView, find_by_idempotency_key, assert_not_duplicate, assert_within_committed,
  write_fulfillment,
}

-- `RecordFulfillmentInput`
pub record RecordFulfillmentInput : Type 0 where
  pub pledge_id : ℕ
  pub value : ℤ
  pub kind : Option FulfillmentKind
  pub method : Option PaymentMethod
  pub currency : Option String
  pub note : Option String
  pub occurred_at : Option ℕ
  pub idempotency_key : Option String
  pub confirm_duplicate : Bool
  pub source : Option ProvenanceSource

-- The part of `recordFulfillment` after the replay test.
unfoldable pub book_payment :
    OperationContext → RecordFulfillmentInput → Env → Tx Db FulfillmentView
book_payment ctx input env = do
  row ← gets (λ db. find_pledge ctx.event_id input.pledge_id db.pledges)
  pledge ← found row not_found
  throw_if (is_cancelled pledge.status) cancelled_pledge
  (if input.confirm_duplicate
      then pure tt
      else assert_not_duplicate ctx.event_id input.pledge_id input.value env.now)
  assert_within_committed ctx.event_id input.pledge_id pledge.committed_value input.value none
  write_fulfillment ctx
      (record {
        pledge_id = input.pledge_id;
        committed_value = pledge.committed_value;
        value = input.value;
        kind = input.kind;
        method = input.method;
        currency = input.currency;
        note = input.note;
        occurred_at = input.occurred_at;
        idempotency_key = input.idempotency_key;
        source = input.source;
      })
      env

-- `recordFulfillment`
unfoldable pub record_fulfillment :
    Check → OperationContext → RecordFulfillmentInput → Env → Tx Db FulfillmentView
unfolding gates find_by_idempotency_key
record_fulfillment entitled ctx input env = do
  lift (gates ctx fulfillment_write)
  throw_if (not (entitled ctx.event_id record_fulfillment_action)) not_entitled
  replay ← gets (find_by_idempotency_key ctx.event_id input.idempotency_key)
  elim replay [ some view ↦ pure view | none ↦ book_payment ctx input env ]

-- `pledge?.committedValue ?? 0n`
abbrev committed_of : Option Pledge → ℤ
committed_of none = pos 0
committed_of (some p) = p.committed_value

-- `pledge?.status === PledgeStatus.CANCELLED`
abbrev cancelled_of : Option Pledge → Bool
cancelled_of none = false
cancelled_of (some p) = is_cancelled p.status

-- `correctValue`
unfoldable pub correct_value : OperationContext → ℕ → ℤ → Tx Db FulfillmentView
unfolding gates assert_within_committed update_fulfillment update_pledge write_audit
correct_value ctx fulfillment_id new_value = do
  lift (gates ctx fulfillment_correct)
  row ← gets (λ db. find_fulfillment ctx.event_id fulfillment_id db.fulfillments)
  current ← found row not_found
  before ← gets (λ db. find_pledge ctx.event_id current.pledge_id db.pledges)
  elim before [
    | none ↦ pure tt
    | some p ↦
        assert_within_committed ctx.event_id current.pledge_id p.committed_value new_value
          (some fulfillment_id)
  ]
  update_fulfillment ctx.event_id fulfillment_id (λ f. record f { value = new_value })
  pledge ← gets (λ db. find_pledge ctx.event_id current.pledge_id db.pledges)
  total ← gets (λ db. sum_fulfillments ctx.event_id current.pledge_id db.fulfillments)
  let committed = committed_of pledge
  let status = derive_status committed total (cancelled_of pledge)
  update_pledge ctx.event_id current.pledge_id (λ p. record p { status = status })
  write_audit (record {
    event_id = ctx.event_id;
    actor_user_id = ctx.user_id;
    action = "fulfillment:correct";
    resource_type = "fulfillment";
    resource_id = fulfillment_id;
    source = manual_correction;
    old_value = some (("value", text (money_to_string current.value)) ∷ []);
    new_value = some (
        ("value", text (money_to_string new_value))
        ∷ ("pledgeStatus", text (status_name status))
        ∷ []);
  })
  pure (record {
    id = current.id;
    pledge_id = current.pledge_id;
    value = money_to_string new_value;
    kind = current.kind;
    method = current.method;
    verification_status = current.verification_status;
    pledge_status = status;
    outstanding = money_to_string (outstanding committed total);
    idempotent_replay = false;
  })
