-- ===== src/Ledger/Operations/Gated.antt =====
-- No request changes the ledger without passing the permission gate and the status gate.
use akabbo.Prelude.{◌≡◌, true, arith}
use akabbo.Prelude.Result.{ok}
use akabbo.Access.Permission.{
  Action, can, pledge_write, pledge_cancel, fulfillment_write, fulfillment_correct,
}
use akabbo.Access.Gates.{OperationContext, gates, gates_open, is_writable}
use akabbo.Access.Entitlement.{Check}
use akabbo.Ledger.Tables.{Db}
use akabbo.Ledger.Pledges
use akabbo.Ledger.Pledges.{Env}
use akabbo.Ledger.Payments
use akabbo.Ledger.Contributions
use akabbo.Ledger.Operations.{Operation, apply}

-- The permission that each request needs.
abbrev pub action_of : Operation → Action
action_of (Operation.create_pledge _) = pledge_write
action_of (Operation.correct_committed_value _ _) = fulfillment_correct
action_of (Operation.cancel_pledge _) = pledge_cancel
action_of (Operation.record_fulfillment _) = fulfillment_write
action_of (Operation.record_direct_contribution _) = fulfillment_write
action_of (Operation.record_pledge_with_payment _) = pledge_write
action_of (Operation.correct_value _ _) = fulfillment_correct

module _ (c : Check) (ctx : OperationContext) (env : Pledges.Env) (db : Db) {db' : Db} where
  passed :
      (op : Operation) → apply c ctx op env db ≡ ok (tt, db') → gates ctx (action_of op) ≡ ok tt
  unfolding apply Pledges.create_pledge Pledges.correct_committed_value Pledges.cancel_pledge
      Payments.record_fulfillment Contributions.record_direct_contribution
      Contributions.open_with_payment Contributions.record_pledge_with_payment
      Payments.correct_value
  passed (Operation.create_pledge input) h = ground arith
  passed (Operation.correct_committed_value id v) h = ground arith
  passed (Operation.cancel_pledge id) h = ground arith
  passed (Operation.record_fulfillment input) h = ground arith
  passed (Operation.record_direct_contribution input) h = ground arith
  passed (Operation.record_pledge_with_payment input) h = ground arith
  passed (Operation.correct_value id v) h = ground arith

  -- A request that goes through was made by a role that may make it, in an event that is not
  -- closed or archived.
  pub apply_gated :
      (op : Operation)
      → apply c ctx op env db ≡ ok (tt, db')
      → (can ctx.role (action_of op) ≡ true) × (is_writable ctx.status ≡ true)
  apply_gated op h = gates_open ctx (action_of op) (passed op h)
