-- ===== src/Ledger/Invariant.antt =====
-- What holds of the ledger between two operations.
use akabbo.Prelude.{ℕ, ◌≡◌, ◌⊎◌, false, Option, none, some}
use akabbo.Prelude.Int.{ℤ, pos, ◌≤ℤ◌}
use akabbo.Access.Gates.{OperationContext}
use akabbo.Ledger.Status.{cancelled, derive_status}
use akabbo.Ledger.Tables.{Db, Pledge}
use akabbo.Ledger.Store.{find_pledge, find_fulfillment, sum_fulfillments, is_enqueued}
use akabbo.Ledger.Store.Updates.{UniqueIds}
use akabbo.Ledger.Store.Keys.{HasKeys}
use akabbo.Ledger.Pledges.{Env}

-- A pledge's stored status is the one that its numbers give, unless it is cancelled; and what is booked
-- on an id that no pledge has sums to nothing.
abbrev pub StatusOk : Option Pledge → ℤ → Type 0
StatusOk none total = total ≡ pos 0
StatusOk (some p) total =
    (p.status ≡ cancelled) ⊎ (p.status ≡ derive_status p.committed_value total false)

-- Nothing is booked beyond the committed amount.
abbrev pub WithinOk : Option Pledge → ℤ → Type 0
WithinOk none total = total ≡ pos 0
WithinOk (some p) total = total ≤ℤ p.committed_value

abbrev pub pledge_at : ℕ → ℕ → Db → Option Pledge
pledge_at ev id db = find_pledge ev id db.pledges

abbrev pub total_at : ℕ → ℕ → Db → ℤ
total_at ev id db = sum_fulfillments ev id db.fulfillments

pub record IsDerived (db : Db) : Type 0 where
  pub rows : (ev id : ℕ) → StatusOk (pledge_at ev id db) (total_at ev id db)
  pub unique : UniqueIds db.fulfillments
  pub keys : HasKeys db.pledges db.fulfillments

pub record IsWithin (db : Db) : Type 0 where
  pub rows : (ev id : ℕ) → WithinOk (pledge_at ev id db) (total_at ev id db)
  pub unique : UniqueIds db.fulfillments

-- The ids that the database draws are new in the event.
pub record IsFresh (ctx : OperationContext) (env : Env) (db : Db) : Type 0 where
  pub pledge : find_pledge ctx.event_id env.pledge_id db.pledges ≡ none
  pub fulfillment : find_fulfillment ctx.event_id env.fulfillment_id db.fulfillments ≡ none
  pub message : is_enqueued env.fulfillment_id db.outbox ≡ false
