-- ===== src/Ledger/Operations.antt =====
-- The requests that change pledges and payments, as one type, and the ledgers that they lead to.
pub mod Keyed
pub mod Keeps
pub mod Derived
pub mod Within
pub mod Gated
pub mod Isolation
use akabbo.Prelude.{ℕ, ◌≡◌, Bool, List, []}
use akabbo.Prelude.Int.{ℤ, pos, ◌≤ℤ◌}
use akabbo.Prelude.Result.{ok}
use akabbo.Prelude.Tx.{Tx, pure, ◌>>=◌}
use akabbo.Access.Gates.{OperationContext}
use akabbo.Access.Entitlement.{Check}
use akabbo.Ledger.Tables.{Db}
use akabbo.Ledger.Pledges
use akabbo.Ledger.Pledges.{Env, CreatePledgeInput}
use akabbo.Ledger.Payments
use akabbo.Ledger.Contributions
use akabbo.Ledger.Payments.{RecordFulfillmentInput}
use akabbo.Ledger.Contributions.{RecordDirectContributionInput, RecordPledgeWithPaymentInput}
use akabbo.Ledger.Invariant.{IsFresh, total_at}

pub data Operation : Type 0 where
  create_pledge : CreatePledgeInput → Operation
  correct_committed_value : ℕ → ℤ → Operation
  cancel_pledge : ℕ → Operation
  record_fulfillment : RecordFulfillmentInput → Operation
  record_direct_contribution : RecordDirectContributionInput → Operation
  record_pledge_with_payment : RecordPledgeWithPaymentInput → Operation
  correct_value : ℕ → ℤ → Operation

-- The result of a request is dropped: what counts here is the ledger that it leaves.
abbrev pub discard : {A : Type 0} → Tx Db A → Tx Db (Unit {0})
discard m = m >>= λ _. pure tt

unfoldable pub apply : Check → OperationContext → Operation → Env → Tx Db (Unit {0})
apply c ctx (create_pledge input) env = discard (Pledges.create_pledge c ctx input env)
apply c ctx (correct_committed_value id v) env = discard (Pledges.correct_committed_value ctx id v)
apply c ctx (cancel_pledge id) env = discard (Pledges.cancel_pledge ctx id)
apply c ctx (record_fulfillment input) env = discard (Payments.record_fulfillment c ctx input env)
apply c ctx (record_direct_contribution input) env =
    discard (Contributions.record_direct_contribution c ctx input env)
apply c ctx (record_pledge_with_payment input) env =
    discard (Contributions.record_pledge_with_payment c ctx input env)
apply c ctx (correct_value id v) env = discard (Payments.correct_value ctx id v)

-- One request that went through, with the ids that the database drew for it.
pub data Step (c : Check) : Db → Db → Type 0 where
  step :
      (ctx : OperationContext) (op : Operation) (env : Env) (db db' : Db)
      → IsFresh ctx env db
      → apply c ctx op env db ≡ ok (tt, db')
      → Step c db db'

-- Requests of any users, in any events, in any order. A request that throws is rolled back.
pub data Reach (c : Check) (db : Db) : Db → Type 0 where
  here : Reach c db db
  next : {db1 db2 : Db} → Reach c db db1 → Step c db1 db2 → Reach c db db2

abbrev pub empty : Db
empty = record { people = []; pledges = []; fulfillments = []; audit = []; outbox = [] }

-- The amounts that `parseMoney` lets through, and a corrected commitment that covers what was
-- already received.
abbrev pub Covers : OperationContext → Operation → Db → Type 0
Covers ctx (create_pledge input) db = pos 0 ≤ℤ input.committed_value
Covers ctx (correct_committed_value id v) db = total_at ctx.event_id id db ≤ℤ v
Covers ctx (record_direct_contribution input) db = pos 0 ≤ℤ input.value
Covers ctx (record_pledge_with_payment input) db = pos 0 ≤ℤ input.committed_value
Covers _ _ db = Unit
