-- ===== src/Ledger/Contributions/Opening.antt =====
-- `recordDirectContribution` and `recordPledgeWithPayment`: a pledge is opened and paid into in one
-- transaction.
use akabbo.Prelude.{
  ℕ, ◌≡◌, refl, ◌⊎◌, inl, inr, none, some, arith, or_else, Option-cases, Bool-cases,
}
use mathlib.Core.Path.{subst}
use akabbo.Prelude.Int.{ℤ, pos, ◌≤ℤ◌, leb_ℤ}
use akabbo.Prelude.Result.{ok}
use akabbo.Prelude.Tx.{>>=-eq-ok}
use akabbo.Access.Gates.{OperationContext}
use akabbo.Access.Entitlement.{Check}
use akabbo.Ledger.Status.{pledged}
use akabbo.Ledger.Tables.{Db, Pledge, human_typed}
use akabbo.Ledger.Pledges.{Env}
use akabbo.Ledger.Pledges.Effects.{Opened}
use akabbo.Ledger.Fulfillments.{
  FulfillmentView, WriteInput, write_fulfillment, find_by_idempotency_key,
}
use akabbo.Ledger.Fulfillments.Write.{Written, write_fulfillment-Written}
use akabbo.Ledger.Contributions.{
  RecordDirectContributionInput, RecordPledgeWithPaymentInput, contributor, direct_pledge,
  initial_pledge, open_direct, open_with_payment, book_direct, record_direct_contribution,
  record_pledge_with_payment,
}

-- What `recordDirectContribution` hands to `writeFulfillment`.
abbrev pub direct_input : RecordDirectContributionInput → Env → WriteInput
direct_input input env = record {
  pledge_id = env.pledge_id;
  committed_value = input.value;
  value = input.value;
  kind = input.kind;
  method = input.method;
  currency = none;
  note = input.note;
  occurred_at = none;
  idempotency_key = input.idempotency_key;
  source = some (or_else input.source human_typed);
}

-- What `recordPledgeWithPayment` hands to `writeFulfillment`.
abbrev pub initial_input : RecordPledgeWithPaymentInput → Env → WriteInput
initial_input input env = record {
  pledge_id = env.pledge_id;
  committed_value = input.committed_value;
  value = or_else input.received_now (pos 0);
  kind = none;
  method = input.method;
  currency = none;
  note = input.note;
  occurred_at = none;
  idempotency_key = input.idempotency_key;
  source = some (or_else input.source human_typed);
}

-- A pledge of `committed` under the fresh id, opened on the way to `db'`.
pub record OpenedFor (ctx : OperationContext) (env : Env) (committed : ℤ) (db db1 : Db)
    : Type 0 where
  pub row : Pledge
  pub event_id : row.event_id ≡ ctx.event_id
  pub id : row.id ≡ env.pledge_id
  pub status : row.status ≡ pledged
  pub committed_value : row.committed_value ≡ committed
  pub opened : Opened row db db1

-- A pledge opened and then paid into.
pub record OpenedAndPaid (ctx : OperationContext) (env : Env) (input : WriteInput) (db db' : Db)
    : Type 0 where
  pub between : Db
  pub opening : OpenedFor ctx env input.committed_value db between
  pub written : Written ctx input env between db'

module _ (ctx : OperationContext) (env : Env) (db : Db) where
  -- Finding or creating the contributor touches no pledge and no fulfillment.
  contributor_lem :
      (input : RecordDirectContributionInput) {id : ℕ} {db' : Db}
      → contributor ctx input env db ≡ ok (id, db')
      → (db'.pledges ≡ db.pledges) × (db'.fulfillments ≡ db.fulfillments)
  unfolding contributor
  contributor_lem input h = ground arith

  pub open_direct-OpenedFor :
      (input : RecordDirectContributionInput) {db1 : Db} {u : Unit {0}}
      → open_direct ctx input env db ≡ ok (u, db1)
      → OpenedFor ctx env input.value db db1
  unfolding open_direct
  open_direct-OpenedFor input {db1} {u} h =
      let (id, db2, found, rest) = >>=-eq-ok (contributor ctx input env) _ db {r = (u, db1)} h in
      let (pledges, fulfillments) = contributor_lem input found in
      record {
        row = direct_pledge ctx input env id;
        event_id = refl;
        id = refl;
        status = refl;
        committed_value = refl;
        opened = record { pledges = ground arith; fulfillments = ground arith };
      }

  pub book_direct-OpenedAndPaid :
      (input : RecordDirectContributionInput) {db' : Db} {v : FulfillmentView}
      → book_direct ctx input env db ≡ ok (v, db')
      → OpenedAndPaid ctx env (direct_input input env) db db'
  unfolding book_direct
  book_direct-OpenedAndPaid input {db'} {v} h =
      let (u, db1, opened, paid) =
        >>=-eq-ok (open_direct ctx input env)
          (λ _. write_fulfillment ctx (direct_input input env) env) db {r = (v, db')} h in
      record {
        between = db1;
        opening = open_direct-OpenedFor input {u = u} opened;
        written = write_fulfillment-Written ctx (direct_input input env) env db1 {v = v} paid;
      }

  pub record_direct_contribution_cases :
      (entitled : Check) (input : RecordDirectContributionInput) {db' : Db} {v : FulfillmentView}
      → record_direct_contribution entitled ctx input env db ≡ ok (v, db')
      → ((db' ≡ db) × (find_by_idempotency_key ctx.event_id input.idempotency_key db ≡ some v))
        ⊎ OpenedAndPaid ctx env (direct_input input env) db db'
  unfolding record_direct_contribution
  record_direct_contribution_cases entitled input {db'} {v} h =
      elim (Option-cases (find_by_idempotency_key ctx.event_id input.idempotency_key db)) [
        | inl new ↦ inr (book_direct-OpenedAndPaid input {v = v} (ground arith))
        | inr (old, e) ↦ inl (ground arith, ground arith)
      ]

  open_with_payment-OpenedFor :
      (entitled : Check) (input : RecordPledgeWithPaymentInput) {db1 : Db} {u : Unit {0}}
      → open_with_payment entitled ctx input env db ≡ ok (u, db1)
      → (or_else input.received_now (pos 0) ≤ℤ input.committed_value)
        × OpenedFor ctx env input.committed_value db db1
  unfolding open_with_payment
  open_with_payment-OpenedFor entitled input {db1} {u} h = (
    ground arith,
    record {
      row = initial_pledge ctx input env;
      event_id = refl;
      id = refl;
      status = refl;
      committed_value = refl;
      opened = record { pledges = ground arith; fulfillments = ground arith };
    },
  )

  -- A pledge with an initial payment is opened alone when nothing was received, and is else opened
  -- and paid into, by no more than it commits.
  pub record_pledge_with_payment_cases :
      (entitled : Check) (input : RecordPledgeWithPaymentInput) {db' : Db} {v : FulfillmentView}
      → record_pledge_with_payment entitled ctx input env db ≡ ok (v, db')
      → (or_else input.received_now (pos 0) ≤ℤ input.committed_value)
        × (OpenedFor ctx env input.committed_value db db'
            ⊎ OpenedAndPaid ctx env (initial_input input env) db db')
  unfolding record_pledge_with_payment
  record_pledge_with_payment_cases entitled input {db'} {v} h =
      let (u, db1, opened, paid) =
        >>=-eq-ok (open_with_payment entitled ctx input env) _ db {r = (v, db')} h in
      let (bound, opening) = open_with_payment-OpenedFor entitled input {u = u} opened in
      (
        bound,
        elim (Bool-cases (leb_ℤ (or_else input.received_now (pos 0)) (pos 0))) [
          | inl nothing_yet ↦
              let same : db1 ≡ db' = ground arith in
              inl (subst (OpenedFor ctx env input.committed_value db) same opening)
          | inr some_paid ↦ inr (record {
            between = db1;
            opening = opening;
            written =
                write_fulfillment-Written ctx (initial_input input env) env db1 {v = v}
                  (ground arith);
          })
        ],
      )
