-- ===== src/Ledger/Tests.antt =====
-- Runs of the ledger on small tables.
use akabbo.Prelude.{◌-◌, ◌↔◌, ◌≡◌, ◌⊎◌, inr, refl, true, false, none, some, [], ◌∷◌, arith}
use akabbo.Prelude.Int.{pos, ◌≤ℤ◌, ◌<ℤ◌, ◌+ℤ◌}
use akabbo.Prelude.Result.{Result, ok, err, exceeds_committed}
use akabbo.Access.Permission.{owner, can, fulfillment_write}
use akabbo.Access.Gates.{OperationContext, active, is_writable, gates}
use akabbo.Access.Entitlement.{Check}
use akabbo.Ledger.Tables.{Db, Person, Pledge, human_typed}
use akabbo.Ledger.Pledges.{Env, CreatePledgeInput, new_pledge}
use akabbo.Ledger.Payments.{RecordFulfillmentInput, record_fulfillment}
use akabbo.Ledger.Contributions.{RecordDirectContributionInput, record_direct_contribution}
use akabbo.Ledger.Money.{
  string, money_to_string, parse_money, parse_money_nonneg, parse_money-money_to_string,
}
use akabbo.Ledger.Status.{
  pledged, partially_fulfilled, fulfilled, derive_status, outstanding, status-outstanding,
}
use akabbo.Ledger.Store.{find_pledge, has_similar}
use akabbo.Ledger.Fulfillments.{FulfillmentView, duplicate_window_ms, find_by_idempotency_key}
use akabbo.Ledger.Payments.Booking.{write_input}
use akabbo.Ledger.Contributions.Opening.{direct_input}
use akabbo.Ledger.Payments.Outcomes.{key_taken, write_view, record_fulfillment_decides}
use akabbo.Ledger.Payments.Retry.{
  status_of, as_replay, record_fulfillment_retry, record_direct_contribution_fulfilled,
}
use akabbo.Ledger.Invariant.{pledge_at, total_at, IsDerived, IsWithin, IsFresh}
use akabbo.Ledger.Operations.{Operation, apply, step, here, next}
use akabbo.Ledger.Operations.Derived.{apply-IsDerived, Reach-IsDerived}
use akabbo.Ledger.Operations.Within.{apply-IsWithin}
use akabbo.Ledger.Operations.Gated.{action_of, apply_gated}
use akabbo.Ledger.Operations.Isolation.{SameEvent, apply-SameEvent}

abbrev after : {A : Type 0} → Result (A × Db) → Db → Db
after (ok (a, db)) old = db
after (err e) old = old

abbrev entitled : Check
entitled event action = true

abbrev ctx : OperationContext
ctx = record { user_id = 7; event_id = 1; role = owner; status = active }

abbrev env : Env
env = record { person_id = 20; pledge_id = 21; fulfillment_id = 22; now = 1000000 }

abbrev env_later : Env
env_later = record { person_id = 30; pledge_id = 31; fulfillment_id = 32; now = 2000000 }

abbrev guest : Person
guest = record {
  id = 5;
  event_id = 1;
  display_name = "Sarah";
  phone = none;
  user_id = none;
  source = human_typed;
  created_by = 7;
}

abbrev db0 : Db
db0 = record { people = guest ∷ []; pledges = []; fulfillments = []; audit = []; outbox = [] }

abbrev promised_input : CreatePledgeInput
promised_input = record {
  person_id = 5;
  committed_value = pos 100;
  type = none;
  target_budget_item_id = none;
  description = none;
  quantity = none;
  unit = none;
  estimated_value = none;
  source = none;
}

abbrev promise : Operation
promise = Operation.create_pledge promised_input

abbrev payment : RecordFulfillmentInput
payment = record {
  pledge_id = 21;
  value = pos 40;
  kind = none;
  method = none;
  currency = none;
  note = none;
  occurred_at = none;
  idempotency_key = some "k1";
  confirm_duplicate = false;
  source = none;
}

abbrev db1 : Db
db1 = after (apply entitled ctx promise env db0) db0

promised : apply entitled ctx promise env db0 ≡ ok (tt, db1)
unfolding apply akabbo.Ledger.Pledges.create_pledge can akabbo.Ledger.Store.find_person
promised = refl

db0-IsDerived : IsDerived db0
unfolding akabbo.Ledger.Store.find_pledge akabbo.Ledger.Store.sum_fulfillments
db0-IsDerived = record {
  rows = λ ev id. refl;
  unique = tt;
  keys = record { unique = tt; owned = tt };
}

db0-IsWithin : IsWithin db0
unfolding akabbo.Ledger.Store.find_pledge akabbo.Ledger.Store.sum_fulfillments
db0-IsWithin = record { rows = λ ev id. refl; unique = tt }

db0-IsFresh : IsFresh ctx env db0
unfolding akabbo.Ledger.Store.find_pledge akabbo.Ledger.Store.find_fulfillment
    akabbo.Ledger.Store.is_enqueued
db0-IsFresh = record { pledge = refl; fulfillment = refl; message = refl }

db1-IsFresh : IsFresh ctx env_later db1
unfolding akabbo.Ledger.Store.find_pledge apply akabbo.Ledger.Pledges.create_pledge can
    akabbo.Ledger.Store.find_person akabbo.Ledger.Store.find_fulfillment
    akabbo.Ledger.Store.is_enqueued
db1-IsFresh = record { pledge = refl; fulfillment = refl; message = refl }

abbrev db2 : Db
db2 = after (apply entitled ctx (Operation.record_fulfillment payment) env_later db1) db1

paid : apply entitled ctx (Operation.record_fulfillment payment) env_later db1 ≡ ok (tt, db2)
unfolding apply akabbo.Ledger.Payments.record_fulfillment can akabbo.Ledger.Store.find_key
    akabbo.Ledger.Pledges.create_pledge akabbo.Ledger.Store.find_person
    akabbo.Ledger.Payments.book_payment akabbo.Ledger.Store.find_pledge
    akabbo.Ledger.Fulfillments.assert_not_duplicate akabbo.Ledger.Store.has_similar
    akabbo.Ledger.Fulfillments.assert_within_committed ◌+ℤ◌ akabbo.Ledger.Store.sum_excluding
    akabbo.Ledger.Fulfillments.write_fulfillment
paid = refl

db1-IsDerived : IsDerived db1
db1-IsDerived = apply-IsDerived entitled ctx env db0 db1 db0-IsFresh promise promised db0-IsDerived

apply-IsDerived_example : IsDerived db2
apply-IsDerived_example =
    apply-IsDerived entitled ctx env_later db1 db2 db1-IsFresh
      (Operation.record_fulfillment payment) paid db1-IsDerived

Reach-IsDerived_example : IsDerived db2
Reach-IsDerived_example = Reach-IsDerived db0-IsDerived (
    next (next here (step ctx promise env db0 db1 db0-IsFresh promised))
      (step ctx (Operation.record_fulfillment payment) env_later db1 db2 db1-IsFresh paid))

apply-IsWithin_example : IsWithin db1
apply-IsWithin_example =
    apply-IsWithin entitled ctx env db0 db1 db0-IsFresh promise promised (omega arith) db0-IsWithin

apply_gated_example : (can owner (action_of promise) ≡ true) × (is_writable active ≡ true)
apply_gated_example = apply_gated entitled ctx env db0 promise promised

apply-SameEvent_example : SameEvent 2 db0 db1
apply-SameEvent_example = apply-SameEvent ctx env 2 (ground arith) entitled promise db0 promised

abbrev pledge1 : Pledge
pledge1 = new_pledge ctx promised_input env

pledge1_there : find_pledge 1 21 db1.pledges ≡ some pledge1
unfolding find_pledge apply akabbo.Ledger.Pledges.create_pledge can akabbo.Ledger.Store.find_person
pledge1_there = refl

nothing_similar :
    has_similar 1 21 (pos 40) (env_later.now - duplicate_window_ms) db1.fulfillments ≡ false
unfolding has_similar apply akabbo.Ledger.Pledges.create_pledge can akabbo.Ledger.Store.find_person
nothing_similar = refl

key_is_free : key_taken 1 (some "k1") db1 ≡ false
unfolding akabbo.Ledger.Store.find_key apply akabbo.Ledger.Pledges.create_pledge can
    akabbo.Ledger.Store.find_person
key_is_free = refl

gates_pass : gates ctx fulfillment_write ≡ ok tt
unfolding gates can
gates_pass = refl

key_is_unseen : find_by_idempotency_key 1 (some "k1") db1 ≡ none
unfolding find_by_idempotency_key akabbo.Ledger.Store.find_key apply
    akabbo.Ledger.Pledges.create_pledge can akabbo.Ledger.Store.find_person
key_is_unseen = refl

record_fulfillment_decides_example :
    ((total_at 1 21 db1 +ℤ pos 40 ≤ℤ pos 100)
      × (db' : Db) × (record_fulfillment entitled ctx payment env_later db1
          ≡ ok (
            write_view ctx (write_input payment (pos 100)) env_later (pos 40 +ℤ total_at 1 21 db1),
            db',
          )))
    ⊎ ((pos 100 <ℤ total_at 1 21 db1 +ℤ pos 40)
        × (record_fulfillment entitled ctx payment env_later db1 ≡ err exceeds_committed))
record_fulfillment_decides_example =
    record_fulfillment_decides ctx payment env_later db1 pledge1 pledge1_there refl
      (inr nothing_similar) key_is_free entitled gates_pass refl key_is_unseen

abbrev view2 : FulfillmentView
view2 = write_view ctx (write_input payment (pos 100)) env_later (pos 40)

paid_view : record_fulfillment entitled ctx payment env_later db1 ≡ ok (view2, db2)
unfolding record_fulfillment can akabbo.Ledger.Store.find_key apply
    akabbo.Ledger.Pledges.create_pledge akabbo.Ledger.Store.find_person
    akabbo.Ledger.Payments.book_payment find_pledge akabbo.Ledger.Fulfillments.assert_not_duplicate
    has_similar akabbo.Ledger.Fulfillments.assert_within_committed ◌+ℤ◌
    akabbo.Ledger.Store.sum_excluding akabbo.Ledger.Fulfillments.write_fulfillment
    akabbo.Ledger.Store.sum_fulfillments
paid_view = refl

record_fulfillment_retry_example :
    record_fulfillment entitled ctx payment env db2 ≡ ok (as_replay view2, db2)
record_fulfillment_retry_example =
    record_fulfillment_retry ctx payment env_later db1 db2 "k1" refl refl entitled env {v = view2}
      paid_view

abbrev gift : RecordDirectContributionInput
gift = record {
  person_id = none;
  display_name = some "Ali";
  phone = none;
  value = pos 50;
  kind = none;
  method = none;
  note = none;
  type = none;
  description = none;
  target_budget_item_id = none;
  idempotency_key = some "g1";
  source = none;
}

abbrev db_gift : Db
db_gift = after (record_direct_contribution entitled ctx gift env db0) db0

abbrev view_gift : FulfillmentView
view_gift = write_view ctx (direct_input gift env) env (pos 50)

given : record_direct_contribution entitled ctx gift env db0 ≡ ok (view_gift, db_gift)
unfolding record_direct_contribution can akabbo.Ledger.Store.find_key
    akabbo.Ledger.Contributions.book_direct akabbo.Ledger.Contributions.open_direct
    akabbo.Ledger.Fulfillments.write_fulfillment find_pledge akabbo.Ledger.Store.sum_fulfillments
    ◌+ℤ◌
given = refl

nothing_yet : total_at 1 21 db0 ≡ pos 0
unfolding akabbo.Ledger.Store.sum_fulfillments
nothing_yet = refl

gift_unseen : find_by_idempotency_key 1 (some "g1") db0 ≡ none
unfolding find_by_idempotency_key akabbo.Ledger.Store.find_key
gift_unseen = refl

record_direct_contribution_fulfilled_example :
    (view_gift.pledge_status ≡ fulfilled)
    × (view_gift.outstanding ≡ money_to_string (pos 0))
    × (status_of (pledge_at 1 21 db_gift) ≡ some fulfilled)
    × (total_at 1 21 db_gift ≡ pos 50)
record_direct_contribution_fulfilled_example =
    record_direct_contribution_fulfilled entitled ctx gift env db0 {v = view_gift} nothing_yet
      (omega arith) gift_unseen given

status-outstanding_example :
    ((derive_status (pos 100) (pos 40) false ≡ pledged) ↔ (pos 40 ≤ℤ pos 0))
    × ((derive_status (pos 100) (pos 40) false ≡ fulfilled)
        ↔ (outstanding (pos 100) (pos 40) ≡ pos 0))
    × ((derive_status (pos 100) (pos 40) false ≡ partially_fulfilled)
        ↔ ((pos 0 <ℤ outstanding (pos 100) (pos 40)) × (outstanding (pos 100) (pos 40) <ℤ pos 100)))
status-outstanding_example = status-outstanding (pos 100) (pos 40) (omega arith)

parse_money-money_to_string_example :
    parse_money (string (money_to_string (pos 25000000))) ≡ ok (pos 25000000)
parse_money-money_to_string_example = parse_money-money_to_string 25000000

read_back : parse_money (string "2500") ≡ ok (pos 2500)
unfolding parse_money
read_back = refl

parse_money_nonneg_example : pos 0 ≤ℤ pos 2500
parse_money_nonneg_example = parse_money_nonneg (string "2500") (pos 2500) read_back
