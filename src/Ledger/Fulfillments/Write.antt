-- ===== src/Ledger/Fulfillments/Write.antt =====
-- What `writeFulfillment` does to the tables.
use akabbo.Prelude.{ℕ, ◌≡◌, refl, false, some, ◌∷◌, arith, if◌then◌else◌}
use akabbo.Prelude.Int.{◌+ℤ◌, ◌≤ℤ◌}
use akabbo.Prelude.Result.{ok}
use akabbo.Access.Gates.{OperationContext}
use akabbo.Ledger.Status.{PledgeStatus, derive_status}
use akabbo.Ledger.Tables.{Db, Pledge}
use akabbo.Ledger.Store.{
  is_row, find_pledge, sum_fulfillments, map_pledge, create_fulfillment, update_pledge, write_audit,
  enqueue,
}
use akabbo.Ledger.Store.Updates.{find_pledge-map_pledge}
use akabbo.Ledger.Pledges.{Env}
use akabbo.Ledger.Fulfillments.{FulfillmentView, WriteInput, new_fulfillment, write_fulfillment}
use akabbo.Ledger.Invariant.{StatusOk, WithinOk, pledge_at, total_at}

abbrev pub restatus : PledgeStatus → Pledge → Pledge
restatus s p = record p { status = s }

-- The tables after a write that went through.
pub record Written (ctx : OperationContext) (input : WriteInput) (env : Env) (db db' : Db)
    : Type 0 where
  pub fulfillments : db'.fulfillments ≡ new_fulfillment ctx input env ∷ db.fulfillments
  pub pledges :
      db'.pledges
      ≡ map_pledge ctx.event_id input.pledge_id
          (restatus (
            derive_status input.committed_value
              (input.value +ℤ sum_fulfillments ctx.event_id input.pledge_id db.fulfillments)
              false))
          db.pledges
  pub people : db'.people ≡ db.people

pub write_fulfillment-Written :
    (ctx : OperationContext) (input : WriteInput) (env : Env) (db : Db) {db' : Db}
    {v : FulfillmentView}
    → write_fulfillment ctx input env db ≡ ok (v, db')
    → Written ctx input env db db'
unfolding create_fulfillment update_pledge write_audit enqueue sum_fulfillments write_fulfillment
write_fulfillment-Written ctx input env db h = ground arith

module _ (ctx : OperationContext) (input : WriteInput) (env : Env) (db db' : Db)
    (w : Written ctx input env db db') (q : Pledge)
    (here : find_pledge ctx.event_id input.pledge_id db.pledges ≡ some q)
    (agreed : q.committed_value ≡ input.committed_value) where
  -- The other pledges keep their rows, and the one that is paid all but its status.
  pub pledge_at-Written :
      (ev id : ℕ)
      → pledge_at ev id db' ≡ (
          if is_row ctx.event_id input.pledge_id ev id
          then some (
              restatus
                (derive_status input.committed_value
                  (input.value +ℤ total_at ctx.event_id input.pledge_id db)
                  false)
                q)
          else pledge_at ev id db)
  pledge_at-Written ev id = ground (
    arith,
    w.pledges,
    find_pledge-map_pledge ctx.event_id input.pledge_id ev id
        (restatus (
          derive_status input.committed_value
            (input.value +ℤ total_at ctx.event_id input.pledge_id db) false))
        db.pledges (λ p. (refl, refl)),
  )

  -- The sum of the pledge that is paid grows by the value, and no other sum changes.
  pub total_at-Written :
      (ev id : ℕ)
      → total_at ev id db' ≡ (
          if is_row ctx.event_id input.pledge_id ev id
          then input.value +ℤ total_at ev id db
          else total_at ev id db)
  total_at-Written ev id = rw w.fulfillments (unfold sum_fulfillments in ground arith)

  pub Written-StatusOk :
      (ev id : ℕ)
      → StatusOk (pledge_at ev id db) (total_at ev id db)
      → StatusOk (pledge_at ev id db') (total_at ev id db')
  Written-StatusOk ev id h = rw (pledge_at-Written ev id, total_at-Written ev id) (ground arith)

  pub Written-WithinOk :
      (ev id : ℕ)
      → input.value +ℤ total_at ctx.event_id input.pledge_id db ≤ℤ input.committed_value
      → WithinOk (pledge_at ev id db) (total_at ev id db)
      → WithinOk (pledge_at ev id db') (total_at ev id db')
  Written-WithinOk ev id bound h =
      rw (pledge_at-Written ev id, total_at-Written ev id) (ground arith)
