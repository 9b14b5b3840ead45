-- ===== src/Ledger/Payments/Booking.antt =====
-- `recordFulfillment`: it replays, or it books one payment within what the pledge has left.
use akabbo.Prelude.{◌-◌, ◌≡◌, ◌⊎◌, inl, inr, true, false, some, arith, Option-cases}
use akabbo.Prelude.Int.{ℤ, ◌+ℤ◌, ◌≤ℤ◌, +ℤ_comm}
use akabbo.Prelude.Result.{ok}
use akabbo.Access.Gates.{OperationContext}
use akabbo.Access.Entitlement.{Check}
use akabbo.Ledger.Tables.{Db, Pledge}
use akabbo.Ledger.Store.{find_pledge, has_similar, sum_fulfillments}
use akabbo.Ledger.Store.Updates.{sum_excluding_nothing}
use akabbo.Ledger.Pledges.{Env, is_cancelled}
use akabbo.Ledger.Fulfillments.{
  FulfillmentView, WriteInput, assert_within_committed, assert_not_duplicate,
  find_by_idempotency_key, duplicate_window_ms,
}
use akabbo.Ledger.Fulfillments.Write.{Written, write_fulfillment-Written}
use akabbo.Ledger.Payments.{RecordFulfillmentInput, book_payment, record_fulfillment}
use akabbo.Ledger.Invariant.{total_at}

-- The argument that `recordFulfillment` hands to `writeFulfillment`.
abbrev pub write_input : RecordFulfillmentInput → ℤ → WriteInput
write_input input committed = record {
  pledge_id = input.pledge_id;
  committed_value = committed;
  value = input.value;
  kind = input.kind;
  method = input.method;
  currency = input.currency;
  note = input.note;
  occurred_at = input.occurred_at;
  idempotency_key = input.idempotency_key;
  source = input.source;
}

-- A payment that was booked: the pledge was there and not cancelled, no equal payment was recent
-- unless the caller confirmed it, the pledge had room, and the tables have the new row.
pub record Booked (ctx : OperationContext) (input : RecordFulfillmentInput) (env : Env)
    (db db' : Db) : Type 0 where
  pub pledge : Pledge
  pub there : find_pledge ctx.event_id input.pledge_id db.pledges ≡ some pledge
  pub alive : is_cancelled pledge.status ≡ false
  pub distinct :
      (input.confirm_duplicate ≡ true)
      ⊎ (has_similar ctx.event_id input.pledge_id input.value
            (env.now - duplicate_window_ms)
            db.fulfillments
          ≡ false)
  pub room : input.value +ℤ total_at ctx.event_id input.pledge_id db ≤ℤ pledge.committed_value
  pub written : Written ctx (write_input input pledge.committed_value) env db db'

module _ (ctx : OperationContext) (input : RecordFulfillmentInput) (env : Env) (db : Db) where
  pub book_payment-Booked :
      {db' : Db} {v : FulfillmentView}
      → book_payment ctx input env db ≡ ok (v, db')
      → Booked ctx input env db db'
  unfolding assert_within_committed assert_not_duplicate
  book_payment-Booked {db'} {v} h =
      elim (Option-cases (find_pledge ctx.event_id input.pledge_id db.pledges)) [
        | inl missing ↦ absurd (unfold book_payment in ground arith)
        | inr (q, there) ↦ record {
          pledge = q;
          there = there;
          alive = unfold book_payment in ground arith;
          distinct = unfold book_payment in ground arith;
          room =
              unfold book_payment in
              ground (
                arith,
                sum_excluding_nothing ctx.event_id input.pledge_id db.fulfillments,
                +ℤ_comm input.value (sum_fulfillments ctx.event_id input.pledge_id db.fulfillments),
              );
          written =
              write_fulfillment-Written ctx (write_input input q.committed_value) env db {v = v}
                (unfold book_payment in ground arith);
        }
      ]

  -- A recorded payment is a replay that changes nothing, or it is booked.
  pub record_fulfillment_cases :
      (entitled : Check) {db' : Db} {v : FulfillmentView}
      → record_fulfillment entitled ctx input env db ≡ ok (v, db')
      → ((db' ≡ db) × (find_by_idempotency_key ctx.event_id input.idempotency_key db ≡ some v))
        ⊎ Booked ctx input env db db'
  unfolding record_fulfillment
  record_fulfillment_cases entitled {db'} {v} h =
      elim (Option-cases (find_by_idempotency_key ctx.event_id input.idempotency_key db)) [
        | inl new ↦ inr (book_payment-Booked {v = v} (ground arith))
        | inr (old, e) ↦ inl (ground arith, ground arith)
      ]
