-- ===== src/Ledger/Payments/Correction.antt =====
-- `correctValue`: one payment has a new value, within what its pledge commits.
use akabbo.Prelude.{ℕ, ◌≡◌, refl, inl, inr, some, arith, Option-cases, if◌then◌else◌}
use akabbo.Prelude.Int.{ℤ, ◌+ℤ◌, ◌≤ℤ◌}
use akabbo.Prelude.Result.{ok}
use akabbo.Access.Gates.{OperationContext}
use akabbo.Ledger.Status.{derive_status, derive_status_cases}
use akabbo.Ledger.Tables.{Db, Pledge, Fulfillment}
use akabbo.Ledger.Store.{
  is_row, find_pledge, find_fulfillment, sum_excluding, map_pledge, map_fulfillment,
}
use akabbo.Ledger.Store.Updates.{
  revalue, UniqueIds, find_pledge-map_pledge, sum_fulfillments-revalue,
}
use akabbo.Ledger.Pledges.{is_cancelled}
use akabbo.Ledger.Fulfillments.{FulfillmentView}
use akabbo.Ledger.Fulfillments.Write.{restatus}
use akabbo.Ledger.Payments.{correct_value}
use akabbo.Ledger.Invariant.{StatusOk, WithinOk, pledge_at, total_at}

module _ (ctx : OperationContext) (fulfillment_id : ℕ) (v : ℤ) (db : Db) where
  pub record Revalued (db' : Db) : Type 0 where
    pub current : Fulfillment
    pub there : find_fulfillment ctx.event_id fulfillment_id db.fulfillments ≡ some current
    pub pledge : Pledge
    pub owned : find_pledge ctx.event_id current.pledge_id db.pledges ≡ some pledge
    pub room :
        sum_excluding ctx.event_id current.pledge_id (some fulfillment_id) db.fulfillments +ℤ v
        ≤ℤ pledge.committed_value
    pub fulfillments :
        db'.fulfillments ≡ map_fulfillment ctx.event_id fulfillment_id (revalue v) db.fulfillments
    pub pledges :
        db'.pledges
        ≡ map_pledge ctx.event_id current.pledge_id
            (restatus (
              derive_status pledge.committed_value
                (total_at ctx.event_id current.pledge_id db')
                (is_cancelled pledge.status)))
            db.pledges

  pub correct_value-Revalued :
      {db' : Db} {view : FulfillmentView}
      → correct_value ctx fulfillment_id v db ≡ ok (view, db')
      → Revalued db'
  unfolding correct_value
  correct_value-Revalued {db'} {view} h =
      elim (Option-cases (find_fulfillment ctx.event_id fulfillment_id db.fulfillments)) [
        | inl missing ↦ absurd (ground arith)
        | inr (f, there) ↦ elim (Option-cases (find_pledge ctx.event_id f.pledge_id db.pledges)) [
          | inl orphan ↦ absurd (ground arith)
          | inr (q, owned) ↦ record {
            current = f;
            there = there;
            pledge = q;
            owned = owned;
            room = ground arith;
            fulfillments = ground arith;
            pledges = ground arith;
          }
        ]
      ]

  module _ (db' : Db) (unique : UniqueIds db.fulfillments) (r : Revalued db') where
    pub total_at-Revalued :
        (ev id : ℕ)
        → total_at ev id db' ≡ (
            if is_row ctx.event_id r.current.pledge_id ev id
            then sum_excluding ev id (some fulfillment_id) db.fulfillments +ℤ v
            else total_at ev id db)
    total_at-Revalued ev id = rw r.fulfillments (
        sum_fulfillments-revalue ctx.event_id fulfillment_id ev id v r.current db.fulfillments
          unique r.there)

    pub pledge_at-Revalued :
        (ev id : ℕ)
        → pledge_at ev id db' ≡ (
            if is_row ctx.event_id r.current.pledge_id ev id
            then some (
                restatus
                  (derive_status r.pledge.committed_value
                    (total_at ctx.event_id r.current.pledge_id db')
                    (is_cancelled r.pledge.status))
                  r.pledge)
            else pledge_at ev id db)
    pledge_at-Revalued ev id = ground (
      arith,
      r.pledges,
      r.owned,
      find_pledge-map_pledge ctx.event_id r.current.pledge_id ev id
          (restatus (
            derive_status r.pledge.committed_value (total_at ctx.event_id r.current.pledge_id db')
              (is_cancelled r.pledge.status)))
          db.pledges (λ p. (refl, refl)),
    )

    pub Revalued-StatusOk :
        (ev id : ℕ)
        → StatusOk (pledge_at ev id db) (total_at ev id db)
        → StatusOk (pledge_at ev id db') (total_at ev id db')
    Revalued-StatusOk ev id h = rw (pledge_at-Revalued ev id) (
        ground (
          arith,
          total_at-Revalued ev id,
          derive_status_cases r.pledge.committed_value
              (total_at ctx.event_id r.current.pledge_id db') (is_cancelled r.pledge.status),
        ))

    pub Revalued-WithinOk :
        (ev id : ℕ)
        → WithinOk (pledge_at ev id db) (total_at ev id db)
        → WithinOk (pledge_at ev id db') (total_at ev id db')
    Revalued-WithinOk ev id h =
        rw (pledge_at-Revalued ev id, total_at-Revalued ev id) (ground (arith, r.room))
