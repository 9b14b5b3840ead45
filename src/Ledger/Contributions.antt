-- ===== src/Ledger/Contributions.antt =====
-- libs/ledger/src/fulfillment.service.ts: a contribution that opens its own pledge, and a pledge with a
-- first payment.
pub mod Opening
use akabbo.Prelude.{
  ℕ, true, false, not, String, str_eq, Option, none, some, [], ◌∷◌, ◌++◌, or_else, if◌then◌else◌,
}
use akabbo.Prelude.Int.{ℤ, pos, ltb_ℤ, leb_ℤ}
use akabbo.Prelude.Result.{not_entitled, not_found, exceeds_committed}
use akabbo.Prelude.Tx.{Tx, pure, gets, lift, found, throw_if, ◌>>=◌, ◌>>◌}
use akabbo.Access.Permission.{pledge_write, fulfillment_write}
use akabbo.Access.Gates.{OperationContext, gates}
use akabbo.Access.Entitlement.{
  Check, create_pledge as create_pledge_action, record_fulfillment as record_fulfillment_action,
}
use akabbo.Ledger.Money.{money_to_string}
use akabbo.Ledger.Status.{pledged, outstanding}
use akabbo.Ledger.Tables.{
  Db, Pledge, PledgeType, cash, FulfillmentKind, payment, PaymentMethod, unknown, reported,
  ProvenanceSource, human_typed, text, ref, flag, Snapshot,
}
use akabbo.Ledger.Store.{find_person, create_person, create_pledge_row, write_audit}
use akabbo.Ledger.Pledges.{Env}
use akabbo.Ledger.Fulfillments.{FulfillmentView, find_by_idempotency_key, write_fulfillment}

-- `RecordDirectContributionInput`
pub record RecordDirectContributionInput : Type 0 where
  pub person_id : Option ℕ
  pub display_name : Option String
  pub phone : Option String
  pub value : ℤ
  pub kind : Option FulfillmentKind
  pub method : Option PaymentMethod
  pub note : Option String
  pub type : Option PledgeType
  pub description : Option String
  pub target_budget_item_id : Option ℕ
  pub idempotency_key : Option String
  pub source : Option ProvenanceSource

-- `RecordPledgeWithPaymentInput`
pub record RecordPledgeWithPaymentInput : Type 0 where
  pub person_id : ℕ
  pub committed_value : ℤ
  pub received_now : Option ℤ
  pub type : Option PledgeType
  pub description : Option String
  pub target_budget_item_id : Option ℕ
  pub method : Option PaymentMethod
  pub note : Option String
  pub idempotency_key : Option String
  pub source : Option ProvenanceSource

-- `!input.displayName`: the empty text is falsy too.
abbrev named : Option String → Option String
named none = none
named (some n) = if str_eq n "" then none else some n

-- The person of a direct contribution: the one that is named by id, or a new one.
unfoldable pub contributor : OperationContext → RecordDirectContributionInput → Env → Tx Db ℕ
unfolding create_person write_audit
contributor ctx input env = elim input.person_id [
  | some id ↦ do
    person ← gets (λ db. find_person ctx.event_id id db.people)
    found person not_found
    pure id
  | none ↦ do
    display_name ← found (named input.display_name) not_found
    create_person (record {
      id = env.person_id;
      event_id = ctx.event_id;
      display_name = display_name;
      phone = input.phone;
      user_id = none;
      source = or_else input.source human_typed;
      created_by = ctx.user_id;
    })
    write_audit (record {
      event_id = ctx.event_id;
      actor_user_id = ctx.user_id;
      action = "person:create";
      resource_type = "person";
      resource_id = env.person_id;
      source = or_else input.source human_typed;
      old_value = none;
      new_value = some (("displayName", text display_name) ∷ []);
    })
    pure env.person_id
]

-- A key whose value is `undefined` is left out of the snapshot.
abbrev person_ref : Option ℕ → Snapshot
person_ref none = []
person_ref (some id) = ("personId", ref id) ∷ []

-- The pledge row of a direct contribution.
abbrev direct_pledge : OperationContext → RecordDirectContributionInput → Env → ℕ → Pledge
direct_pledge ctx input env person_id = record {
  id = env.pledge_id;
  event_id = ctx.event_id;
  person_id = person_id;
  type = or_else input.type cash;
  committed_value = input.value;
  status = pledged;
  target_budget_item_id = input.target_budget_item_id;
  description = input.description;
  quantity = none;
  unit = none;
  estimated_value = none;
  is_direct = true;
  source = or_else input.source human_typed;
  created_by = ctx.user_id;
}

-- `recordDirectContribution` up to the write of the payment: the person, the pledge and its audit.
unfoldable pub open_direct :
    OperationContext → RecordDirectContributionInput → Env → Tx Db (Unit {0})
unfolding contributor create_pledge_row write_audit
open_direct ctx input env = do
  person_id ← contributor ctx input env
  create_pledge_row (direct_pledge ctx input env person_id)
  write_audit (record {
    event_id = ctx.event_id;
    actor_user_id = ctx.user_id;
    action = "pledge:create_direct";
    resource_type = "pledge";
    resource_id = env.pledge_id;
    source = or_else input.source human_typed;
    old_value = none;
    new_value = some (
        person_ref input.person_id
        ++ (("committedValue", text (money_to_string input.value)) ∷ ("isDirect", flag true) ∷ []));
  })

-- The part of `recordDirectContribution` after the replay test.
unfoldable pub book_direct :
    OperationContext → RecordDirectContributionInput → Env → Tx Db FulfillmentView
book_direct ctx input env = do
  open_direct ctx input env
  write_fulfillment ctx
      (record {
        pledge_id = env.pledge_id;
        committed_value = input.value;
        value = input.value;
        kind = input.kind;
        method = input.method;
        currency = none;
        note = input.note;
        occurred_at = none;
        idempotency_key = input.idempotency_key;
        source = some (or_else input.source human_typed);
      })
      env

-- `recordDirectContribution`
unfoldable pub record_direct_contribution :
    Check → OperationContext → RecordDirectContributionInput → Env → Tx Db FulfillmentView
unfolding gates find_by_idempotency_key
record_direct_contribution entitled ctx input env = do
  lift (gates ctx fulfillment_write)
  throw_if (not (entitled ctx.event_id record_fulfillment_action)) not_entitled
  replay ← gets (find_by_idempotency_key ctx.event_id input.idempotency_key)
  elim replay [ some view ↦ pure view | none ↦ book_direct ctx input env ]

-- The pledge row of a pledge with an initial payment.
abbrev initial_pledge : OperationContext → RecordPledgeWithPaymentInput → Env → Pledge
initial_pledge ctx input env = record {
  id = env.pledge_id;
  event_id = ctx.event_id;
  person_id = input.person_id;
  type = or_else input.type cash;
  committed_value = input.committed_value;
  status = pledged;
  target_budget_item_id = input.target_budget_item_id;
  description = input.description;
  quantity = none;
  unit = none;
  estimated_value = none;
  is_direct = false;
  source = or_else input.source human_typed;
  created_by = ctx.user_id;
}

-- `recordPledgeWithPayment` up to the payment: the gates, the pledge and its audit.
unfoldable pub open_with_payment :
    Check → OperationContext → RecordPledgeWithPaymentInput → Env → Tx Db (Unit {0})
unfolding gates create_pledge_row write_audit
open_with_payment entitled ctx input env = do
  lift (gates ctx pledge_write)
  throw_if (not (entitled ctx.event_id create_pledge_action)) not_entitled
  person ← gets (λ db. find_person ctx.event_id input.person_id db.people)
  found person not_found
  let received_now = or_else input.received_now (pos 0)
  throw_if (ltb_ℤ input.committed_value received_now) exceeds_committed
  create_pledge_row (initial_pledge ctx input env)
  write_audit (record {
    event_id = ctx.event_id;
    actor_user_id = ctx.user_id;
    action = "pledge:create";
    resource_type = "pledge";
    resource_id = env.pledge_id;
    source = or_else input.source human_typed;
    old_value = none;
    new_value = some (
        ("personId", ref input.person_id)
        ∷ ("committedValue", text (money_to_string input.committed_value))
        ∷ []);
  })

-- `recordPledgeWithPayment`
unfoldable pub record_pledge_with_payment :
    Check → OperationContext → RecordPledgeWithPaymentInput → Env → Tx Db FulfillmentView
record_pledge_with_payment entitled ctx input env = do
  open_with_payment entitled ctx input env
  let received_now = or_else input.received_now (pos 0)
  (if leb_ℤ received_now (pos 0)
      then pure (record {
        id = env.pledge_id;
        pledge_id = env.pledge_id;
        value = "0";
        kind = payment;
        method = unknown;
        verification_status = reported;
        pledge_status = pledged;
        outstanding = money_to_string input.committed_value;
        idempotent_replay = false;
      })
      else write_fulfillment ctx
          (record {
            pledge_id = env.pledge_id;
            committed_value = input.committed_value;
            value = received_now;
            kind = none;
            method = input.method;
            currency = none;
            note = input.note;
            occurred_at = none;
            idempotency_key = input.idempotency_key;
            source = some (or_else input.source human_typed);
          })
          env)
