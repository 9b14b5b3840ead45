-- ===== src/Ledger/Payments/Outcomes.antt =====
-- When `recordFulfillment` books, what it answers, and what a retry under the same key answers.
use akabbo.Prelude.{
  ℕ, ◌-◌, ◌≡◌, ◌⊎◌, inl, inr, Bool, true, false, String, Option, none, some, arith, Bool-cases,
  or_else, is_some,
}
use akabbo.Prelude.Int.{ℤ, ◌+ℤ◌, ◌≤ℤ◌, ◌<ℤ◌, ltb_ℤ}
use akabbo.Prelude.Result.{ok, err, Result-cases, exceeds_committed}
use akabbo.Access.Permission.{fulfillment_write}
use akabbo.Access.Gates.{OperationContext, gates}
use akabbo.Access.Entitlement.{Check, record_fulfillment as record_fulfillment_action}
use akabbo.Ledger.Money.{money_to_string}
use akabbo.Ledger.Status.{derive_status, outstanding}
use akabbo.Ledger.Tables.{Db, Pledge, payment, unknown, reported}
use akabbo.Ledger.Store.{find_pledge, find_key, has_similar, sum_fulfillments}
use akabbo.Ledger.Store.Updates.{sum_excluding_nothing}
use akabbo.Ledger.Pledges.{Env, is_cancelled}
use akabbo.Ledger.Fulfillments.{
  FulfillmentView, WriteInput, write_fulfillment, assert_within_committed, assert_not_duplicate,
  find_by_idempotency_key, duplicate_window_ms,
}
use akabbo.Ledger.Payments.{RecordFulfillmentInput, book_payment, record_fulfillment}
use akabbo.Ledger.Payments.Booking.{write_input}
use akabbo.Ledger.Invariant.{total_at}

-- Is a row already stored under this key?
abbrev pub key_taken : ℕ → Option String → Db → Bool
key_taken ev none db = false
key_taken ev (some k) db = is_some (find_key ev k db.fulfillments)

-- What `writeFulfillment` answers for a total.
abbrev pub write_view : OperationContext → WriteInput → Env → ℤ → FulfillmentView
write_view ctx input env total = record {
  id = env.fulfillment_id;
  pledge_id = input.pledge_id;
  value = money_to_string input.value;
  kind = or_else input.kind payment;
  method = or_else input.method unknown;
  verification_status = reported;
  pledge_status = derive_status input.committed_value total false;
  outstanding = money_to_string (outstanding input.committed_value total);
  idempotent_replay = false;
}

module _ (ctx : OperationContext) (input : WriteInput) (env : Env) (db : Db) where
  -- A write that returns answers with the status and the outstanding amount of the new total.
  pub write_fulfillment-view :
      {v : FulfillmentView} {db' : Db}
      → write_fulfillment ctx input env db ≡ ok (v, db')
      → v ≡ write_view ctx input env (input.value +ℤ total_at ctx.event_id input.pledge_id db)
  unfolding write_fulfillment sum_fulfillments
  write_fulfillment-view h = ground arith

  -- On a pledge that is there and under a key that is free the write returns.
  pub write_fulfillment_returns :
      {q : Pledge}
      → find_pledge ctx.event_id input.pledge_id db.pledges ≡ some q
      → key_taken ctx.event_id input.idempotency_key db ≡ false
      → (r : FulfillmentView × Db) × (write_fulfillment ctx input env db ≡ ok r)
  unfolding write_fulfillment
  write_fulfillment_returns there free = elim (Result-cases (write_fulfillment ctx input env db)) [
    | inl good ↦ good
    | inr (e, bad) ↦ absurd (ground arith)
  ]

module _ (ctx : OperationContext) (input : RecordFulfillmentInput) (env : Env) (db : Db)
    (q : Pledge) (there : find_pledge ctx.event_id input.pledge_id db.pledges ≡ some q)
    (alive : is_cancelled q.status ≡ false)
    (distinct : (input.confirm_duplicate ≡ true)
      ⊎ (has_similar ctx.event_id input.pledge_id input.value
            (env.now - duplicate_window_ms)
            db.fulfillments
          ≡ false))
    (free : key_taken ctx.event_id input.idempotency_key db ≡ false) where
  -- A payment that fits into what is left is booked, and the answer tells the new state.
  pub book_payment_accepts :
      total_at ctx.event_id input.pledge_id db +ℤ input.value ≤ℤ q.committed_value
      → (db' : Db) × (book_payment ctx input env db
          ≡ ok (
            write_view ctx
                (write_input input q.committed_value)
                env
                (input.value +ℤ total_at ctx.event_id input.pledge_id db),
            db',
          ))
  unfolding book_payment assert_within_committed assert_not_duplicate
  book_payment_accepts room =
      let ((v, db'), e) =
        write_fulfillment_returns ctx (write_input input q.committed_value) env db there free in
      (
        db',
        ground (
          arith,
          sum_excluding_nothing ctx.event_id input.pledge_id db.fulfillments,
          write_fulfillment-view ctx (write_input input q.committed_value) env db {v = v} e,
        ),
      )

  -- One that does not fit is refused.
  pub book_payment_refuses :
      q.committed_value <ℤ total_at ctx.event_id input.pledge_id db +ℤ input.value
      → book_payment ctx input env db ≡ err exceeds_committed
  unfolding book_payment assert_within_committed assert_not_duplicate
  book_payment_refuses over =
      ground (arith, sum_excluding_nothing ctx.event_id input.pledge_id db.fulfillments)

  module _ (entitled : Check) (passed : gates ctx fulfillment_write ≡ ok tt)
      (allowed : entitled ctx.event_id record_fulfillment_action ≡ true)
      (unseen : find_by_idempotency_key ctx.event_id input.idempotency_key db ≡ none) where
    -- Past the gates and on a known pledge that is not cancelled, a payment under a free key that is
    -- no replay and no unconfirmed duplicate is booked exactly if it fits into what the pledge has
    -- left: then the answer has the status and the outstanding amount of the new total, and else it
    -- is refused as going beyond the commitment.
    pub record_fulfillment_decides :
        ((total_at ctx.event_id input.pledge_id db +ℤ input.value ≤ℤ q.committed_value)
          × (db' : Db) × (record_fulfillment entitled ctx input env db
              ≡ ok (
                write_view ctx
                    (write_input input q.committed_value)
                    env
                    (input.value +ℤ total_at ctx.event_id input.pledge_id db),
                db',
              )))
        ⊎ ((q.committed_value <ℤ total_at ctx.event_id input.pledge_id db +ℤ input.value)
            × (record_fulfillment entitled ctx input env db ≡ err exceeds_committed))
    unfolding record_fulfillment
    record_fulfillment_decides =
        elim (Bool-cases
          (ltb_ℤ q.committed_value (total_at ctx.event_id input.pledge_id db +ℤ input.value))) [
            | inl over ↦
                let e = book_payment_refuses (ground arith) in inr (ground arith, ground arith)
            | inr room ↦
                let (db', e) = book_payment_accepts (ground arith) in
                inl (ground arith, db', ground arith)
          ]
