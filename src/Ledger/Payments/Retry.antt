-- ===== src/Ledger/Payments/Retry.antt =====
-- Money safety of `FulfillmentService`: a retry under the same key books nothing, and a direct
-- contribution is fulfilled at once.
use akabbo.Prelude.{
  ℕ, ◌≡◌, refl, true, false, String, str_eq, Option, none, some, arith, eq_iff, Option-cases, inl,
  inr,
}
use akabbo.Prelude.Tx.{>>=-eq-ok}
use akabbo.Prelude.Int.{pos, ◌+ℤ◌, ◌<ℤ◌, +ℤ-zero}
use akabbo.Prelude.Result.{ok}
use akabbo.Access.Gates.{OperationContext}
use akabbo.Access.Entitlement.{Check}
use akabbo.Ledger.Money.{money_to_string}
use akabbo.Ledger.Status.{PledgeStatus, fulfilled, full}
use akabbo.Ledger.Tables.{Db, Pledge}
use akabbo.Ledger.Store.{find_pledge, find_key}
use akabbo.Ledger.Pledges.{Env}
use akabbo.Ledger.Pledges.Effects.{pledge_at-Opened, total_at-Opened}
use akabbo.Ledger.Fulfillments.{
  FulfillmentView, write_fulfillment, assert_within_committed, assert_not_duplicate,
  find_by_idempotency_key,
}
use akabbo.Ledger.Fulfillments.Write.{
  write_fulfillment-Written, pledge_at-Written, total_at-Written,
}
use akabbo.Ledger.Payments.{book_payment, RecordFulfillmentInput, record_fulfillment}
use akabbo.Ledger.Contributions.{
  open_direct, book_direct, RecordDirectContributionInput, record_direct_contribution,
}
use akabbo.Ledger.Payments.Booking.{write_input, Booked, record_fulfillment_cases}
use akabbo.Ledger.Contributions.Opening.{direct_input, OpenedFor, open_direct-OpenedFor}
use akabbo.Ledger.Payments.Outcomes.{write_view, write_fulfillment-view}
use akabbo.Ledger.Invariant.{pledge_at, total_at}

-- The stored status of a pledge that may be missing.
abbrev pub status_of : Option Pledge → Option PledgeStatus
status_of none = none
status_of (some p) = some p.status

-- What a replay answers for a booked payment: the original record, marked as a replay.
abbrev pub as_replay : FulfillmentView → FulfillmentView
as_replay v = record v { idempotent_replay = true }

replay-as_replay :
    (ev : ℕ) (key : Option String) (db : Db) {old : FulfillmentView}
    → find_by_idempotency_key ev key db ≡ some old
    → old ≡ as_replay old
unfolding find_by_idempotency_key
replay-as_replay ev key db e = ground arith

module _ (ctx : OperationContext) (input : RecordFulfillmentInput) (env : Env) (db db' : Db)
    (k : String) (keyed : input.idempotency_key ≡ some k) (nonempty : str_eq k "" ≡ false) where
  -- After a booking the key finds the row that was written, with its pledge as it now stands.
  found_again :
      (b : Booked ctx input env db db')
      → find_by_idempotency_key ctx.event_id input.idempotency_key db'
        ≡ some (
            as_replay (
              write_view ctx
                (write_input input b.pledge.committed_value)
                env
                (input.value +ℤ total_at ctx.event_id input.pledge_id db)))
  unfolding find_by_idempotency_key find_key
  found_again b = ground (
    arith,
    b.written.fulfillments,
    eq_iff k k,
    keyed,
    nonempty,
    pledge_at-Written ctx (write_input input b.pledge.committed_value) env db db' b.written b.pledge
        b.there refl ctx.event_id input.pledge_id,
    total_at-Written ctx (write_input input b.pledge.committed_value) env db db' b.written b.pledge
        b.there refl ctx.event_id input.pledge_id,
  )

  answered :
      (entitled : Check) (b : Booked ctx input env db db') {v : FulfillmentView}
      → find_by_idempotency_key ctx.event_id input.idempotency_key db ≡ none
      → record_fulfillment entitled ctx input env db ≡ ok (v, db')
      → v
        ≡ write_view ctx
            (write_input input b.pledge.committed_value)
            env
            (input.value +ℤ total_at ctx.event_id input.pledge_id db)
  unfolding record_fulfillment book_payment assert_within_committed assert_not_duplicate
  answered entitled b {v} unseen h =
      write_fulfillment-view ctx (write_input input b.pledge.committed_value) env db {db' = db'}
        (ground (arith, b.there))

  -- After a payment with a key that is not the empty text was recorded or replayed, a retry under the
  -- same key by the same context, whenever it comes and whatever ids the database would draw for it,
  -- answers with the original record, marked as a replay, and leaves the ledger as it is.
  pub record_fulfillment_retry :
      (entitled : Check) (env2 : Env) {v : FulfillmentView}
      → record_fulfillment entitled ctx input env db ≡ ok (v, db')
      → record_fulfillment entitled ctx input env2 db' ≡ ok (as_replay v, db')
  unfolding record_fulfillment
  record_fulfillment_retry entitled env2 {v} h =
      elim (Option-cases (find_by_idempotency_key ctx.event_id input.idempotency_key db)) [
        | inr (old, e) ↦ ground (arith, replay-as_replay ctx.event_id input.idempotency_key db e)
        | inl unseen ↦ elim (record_fulfillment_cases ctx input env db entitled {v = v} h) [
          | inl (same, e) ↦ absurd (cc (unseen, e))
          | inr b ↦ ground (arith, found_again b, answered entitled b {v = v} unseen h)
        ]
      ]

-- Paying the whole of a fresh pledge.
paid_in_full :
    (ctx : OperationContext) (input : RecordDirectContributionInput) (env : Env) (db db1 : Db)
    {v : FulfillmentView} {db' : Db}
    → total_at ctx.event_id env.pledge_id db ≡ pos 0
    → pos 0 <ℤ input.value
    → OpenedFor ctx env input.value db db1
    → write_fulfillment ctx (direct_input input env) env db1 ≡ ok (v, db')
    → (v.pledge_status ≡ fulfilled)
      × (v.outstanding ≡ money_to_string (pos 0))
      × (status_of (pledge_at ctx.event_id env.pledge_id db') ≡ some fulfilled)
      × (total_at ctx.event_id env.pledge_id db' ≡ input.value)
paid_in_full ctx input env db db1 {v} {db'} zero positive o paid =
    let w = write_fulfillment-Written ctx (direct_input input env) env db1 {v = v} paid in
    let answer = write_fulfillment-view ctx (direct_input input env) env db1 {v = v} paid in
    let none_yet = total_at-Opened o.row db db1 o.opened ctx.event_id env.pledge_id in
    let row : find_pledge ctx.event_id env.pledge_id db1.pledges ≡ some o.row = ground (
      arith,
      pledge_at-Opened o.row db db1 o.opened ctx.event_id env.pledge_id,
      o.event_id,
      o.id,
    ) in
    let total =
      total_at-Written ctx _ env db1 db' w o.row row o.committed_value ctx.event_id env.pledge_id in
    let stored =
      pledge_at-Written ctx _ env db1 db' w o.row row o.committed_value ctx.event_id
        env.pledge_id in
    ground (arith, full input.value positive, +ℤ-zero input.value, zero)

-- If nothing is booked under the id that its pledge draws, a direct contribution of a positive amount
-- that is no replay and goes through is answered as fulfilled, with nothing outstanding, and is
-- stored so with the whole amount booked.
pub record_direct_contribution_fulfilled :
    (entitled : Check) (ctx : OperationContext) (input : RecordDirectContributionInput) (env : Env)
    (db : Db) {v : FulfillmentView} {db' : Db}
    → total_at ctx.event_id env.pledge_id db ≡ pos 0
    → pos 0 <ℤ input.value
    → find_by_idempotency_key ctx.event_id input.idempotency_key db ≡ none
    → record_direct_contribution entitled ctx input env db ≡ ok (v, db')
    → (v.pledge_status ≡ fulfilled)
      × (v.outstanding ≡ money_to_string (pos 0))
      × (status_of (pledge_at ctx.event_id env.pledge_id db') ≡ some fulfilled)
      × (total_at ctx.event_id env.pledge_id db' ≡ input.value)
unfolding record_direct_contribution
record_direct_contribution_fulfilled entitled ctx input env db {v} {db'} zero positive unseen h =
    let booked : book_direct ctx input env db ≡ ok (v, db') = ground arith in
    let (u, db1, opened, paid) =
      >>=-eq-ok (open_direct ctx input env)
        (λ _. write_fulfillment ctx (direct_input input env) env) db {r = (v, db')}
        (unfold book_direct in booked) in
    let o = open_direct-OpenedFor ctx env db input {u = u} opened in
    paid_in_full ctx input env db db1 zero positive o paid
