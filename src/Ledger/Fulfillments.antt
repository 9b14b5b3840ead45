-- ===== src/Ledger/Fulfillments.antt =====
-- libs/ledger/src/fulfillment.service.ts: the shapes and the shared internals of
-- `FulfillmentService`.
pub mod Write
use akabbo.Prelude.{
  ℕ, ◌-◌, ◌*◌, Bool, true, false, String, str_eq, Option, none, some, [], ◌∷◌, or_else,
  if◌then◌else◌,
}
use akabbo.Prelude.Int.{ℤ, ◌+ℤ◌, ltb_ℤ}
use akabbo.Prelude.Result.{duplicate_suspected, exceeds_committed}
use akabbo.Prelude.Tx.{Tx, pure, gets, throw_if, ◌>>=◌, ◌>>◌}
use akabbo.Access.Gates.{OperationContext}
use akabbo.Ledger.Money.{money_to_string}
use akabbo.Ledger.Status.{PledgeStatus, derive_status, outstanding}
use akabbo.Ledger.Tables.{
  Db, Fulfillment, FulfillmentKind, payment, PaymentMethod, unknown, VerificationStatus, reported,
  ProvenanceSource, human_typed, text, ref, status_name, method_name, verification_name,
}
use akabbo.Ledger.Store.{
  find_pledge, find_key, sum_fulfillments, sum_excluding, has_similar, create_fulfillment,
  update_pledge, write_audit, enqueue,
}
use akabbo.Ledger.Pledges.{Env}

-- `FulfillmentView`
pub record FulfillmentView : Type 0 where
  pub id : ℕ
  pub pledge_id : ℕ
  pub value : String
  pub kind : FulfillmentKind
  pub method : PaymentMethod
  pub verification_status : VerificationStatus
  pub pledge_status : PledgeStatus
  pub outstanding : String
  pub idempotent_replay : Bool

-- The argument of `writeFulfillment`.
pub record WriteInput : Type 0 where
  pub pledge_id : ℕ
  pub committed_value : ℤ
  pub value : ℤ
  pub kind : Option FulfillmentKind
  pub method : Option PaymentMethod
  pub currency : Option String
  pub note : Option String
  pub occurred_at : Option ℕ
  pub idempotency_key : Option String
  pub source : Option ProvenanceSource

-- `DUPLICATE_WINDOW_MS`
abbrev pub duplicate_window_ms : ℕ
duplicate_window_ms = 10 * 60 * 1000

-- The key that `findByIdempotencyKey` looks for: the empty text is falsy.
abbrev pub truthy : Option String → Option String
truthy none = none
truthy (some k) = if str_eq k "" then none else some k

-- The record that a replay returns, with the pledge's stored status.
pub replay_view : ℕ → Fulfillment → Db → Option FulfillmentView
replay_view ev f db = elim (find_pledge ev f.pledge_id db.pledges) [
  | none ↦ none
  | some p ↦ some (record {
    id = f.id;
    pledge_id = f.pledge_id;
    value = money_to_string f.value;
    kind = f.kind;
    method = f.method;
    verification_status = f.verification_status;
    pledge_status = p.status;
    outstanding =
        money_to_string
          (outstanding p.committed_value (sum_fulfillments ev f.pledge_id db.fulfillments));
    idempotent_replay = true;
  })
]

-- `findByIdempotencyKey`
unfoldable pub find_by_idempotency_key : ℕ → Option String → Db → Option FulfillmentView
unfolding replay_view
find_by_idempotency_key ev key db = elim (truthy key) [
  | none ↦ none
  | some k ↦ elim (find_key ev k db.fulfillments) [ none ↦ none | some f ↦ replay_view ev f db ]
]

-- `assertNotDuplicate`
unfoldable pub assert_not_duplicate : ℕ → ℕ → ℤ → ℕ → Tx Db (Unit {0})
assert_not_duplicate ev pledge_id value now = do
  similar ← gets (λ db. has_similar ev pledge_id value (now - duplicate_window_ms) db.fulfillments)
  throw_if similar duplicate_suspected

-- `assertWithinCommitted`
unfoldable pub assert_within_committed : ℕ → ℕ → ℤ → ℤ → Option ℕ → Tx Db (Unit {0})
assert_within_committed ev pledge_id committed additional excluded = do
  existing ← gets (λ db. sum_excluding ev pledge_id excluded db.fulfillments)
  throw_if (ltb_ℤ committed (existing +ℤ additional)) exceeds_committed

-- The row that `writeFulfillment` inserts.
abbrev pub new_fulfillment : OperationContext → WriteInput → Env → Fulfillment
new_fulfillment ctx input env = record {
  id = env.fulfillment_id;
  event_id = ctx.event_id;
  pledge_id = input.pledge_id;
  kind = or_else input.kind payment;
  value = input.value;
  currency = or_else input.currency "UGX";
  method = or_else input.method unknown;
  verification_status = reported;
  note = input.note;
  occurred_at = or_else input.occurred_at env.now;
  idempotency_key = input.idempotency_key;
  source = or_else input.source human_typed;
  created_by = ctx.user_id;
  created_at = env.now;
}

-- `writeFulfillment`: the row, the recomputed status, the audit event and the outbox row.
unfoldable pub write_fulfillment : OperationContext → WriteInput → Env → Tx Db FulfillmentView
unfolding create_fulfillment update_pledge write_audit enqueue
write_fulfillment ctx input env = do
  let f = new_fulfillment ctx input env
  create_fulfillment f
  total ← gets (λ db. sum_fulfillments ctx.event_id input.pledge_id db.fulfillments)
  let status = derive_status input.committed_value total false
  let remaining = outstanding input.committed_value total
  update_pledge ctx.event_id input.pledge_id (λ p. record p { status = status })
  write_audit (record {
    event_id = ctx.event_id;
    actor_user_id = ctx.user_id;
    action = "fulfillment:create";
    resource_type = "fulfillment";
    resource_id = f.id;
    source = f.source;
    old_value = none;
    new_value = some (
        ("pledgeId", ref f.pledge_id)
        ∷ ("value", text (money_to_string f.value))
        ∷ ("method", text (method_name f.method))
        ∷ ("verificationStatus", text (verification_name f.verification_status))
        ∷ ("pledgeStatus", text (status_name status))
        ∷ []);
  })
  enqueue (record {
    event_id = ctx.event_id;
    topic = "contribution.recorded";
    fulfillment_id = f.id;
    payload =
        ("fulfillmentId", ref f.id)
        ∷ ("pledgeId", ref f.pledge_id)
        ∷ ("value", text (money_to_string f.value))
        ∷ [];
  })
  pure (record {
    id = f.id;
    pledge_id = f.pledge_id;
    value = money_to_string f.value;
    kind = f.kind;
    method = f.method;
    verification_status = f.verification_status;
    pledge_status = status;
    outstanding = money_to_string remaining;
    idempotent_replay = false;
  })
