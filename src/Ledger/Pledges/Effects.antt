-- ===== src/Ledger/Pledges/Effects.antt =====
-- What the operations of `PledgeService` do to the tables, and that each keeps the derived status.
use akabbo.Prelude.{ℕ, ◌≡◌, refl, inl, inr, none, some, ◌∷◌, arith, if◌then◌else◌, Option-cases}
use akabbo.Prelude.Int.{ℤ, pos, ◌≤ℤ◌}
use akabbo.Prelude.Result.{ok}
use akabbo.Access.Gates.{OperationContext}
use akabbo.Access.Entitlement.{Check}
use akabbo.Ledger.Status.{PledgeStatus, pledged, cancelled, derive_status}
use akabbo.Ledger.Tables.{Db, Pledge}
use akabbo.Ledger.Store.{is_row, find_pledge, map_pledge}
use akabbo.Ledger.Store.Updates.{find_pledge-map_pledge, map_option, KeepsKey}
use akabbo.Ledger.Pledges.{
  Env, CreatePledgeInput, PledgeView, is_cancelled, new_pledge, create_pledge,
  correct_committed_value, cancel_pledge,
}
use akabbo.Ledger.Invariant.{StatusOk, WithinOk, pledge_at, total_at}

-- One new pledge, and nothing booked.
pub record Opened (p : Pledge) (db db' : Db) : Type 0 where
  pub pledges : db'.pledges ≡ p ∷ db.pledges
  pub fulfillments : db'.fulfillments ≡ db.fulfillments

module _ (p : Pledge) (db db' : Db) (o : Opened p db db') where
  pub pledge_at-Opened :
      (ev id : ℕ)
      → pledge_at ev id db' ≡ (if is_row ev id p.event_id p.id then some p else pledge_at ev id db)
  pledge_at-Opened ev id = rw o.pledges (unfold find_pledge in refl)

  pub total_at-Opened : (ev id : ℕ) → total_at ev id db' ≡ total_at ev id db
  total_at-Opened ev id = rw o.fulfillments refl

  pub Opened-StatusOk :
      (ev id : ℕ)
      → find_pledge p.event_id p.id db.pledges ≡ none
      → p.status ≡ pledged
      → StatusOk (pledge_at ev id db) (total_at ev id db)
      → StatusOk (pledge_at ev id db') (total_at ev id db')
  unfolding derive_status
  Opened-StatusOk ev id fresh s h =
      rw (pledge_at-Opened ev id, total_at-Opened ev id) (ground arith)

  pub Opened-WithinOk :
      (ev id : ℕ)
      → find_pledge p.event_id p.id db.pledges ≡ none
      → pos 0 ≤ℤ p.committed_value
      → WithinOk (pledge_at ev id db) (total_at ev id db)
      → WithinOk (pledge_at ev id db') (total_at ev id db')
  Opened-WithinOk ev id fresh c h =
      rw (pledge_at-Opened ev id, total_at-Opened ev id) (ground arith)

-- One pledge of the event changed by `g`, and nothing booked.
pub record Patched (ev id : ℕ) (g : Pledge → Pledge) (db db' : Db) : Type 0 where
  pub pledges : db'.pledges ≡ map_pledge ev id g db.pledges
  pub fulfillments : db'.fulfillments ≡ db.fulfillments

module _ (ev id : ℕ) (g : Pledge → Pledge) (db db' : Db) (o : Patched ev id g db db')
    (keeps : KeepsKey g) where
  pub pledge_at-Patched :
      (ev' id' : ℕ)
      → pledge_at ev' id' db' ≡ (
          if is_row ev id ev' id'
          then map_option g (pledge_at ev' id' db)
          else pledge_at ev' id' db)
  pledge_at-Patched ev' id' =
      ground (arith, o.pledges, find_pledge-map_pledge ev id ev' id' g db.pledges keeps)

  pub total_at-Patched : (ev' id' : ℕ) → total_at ev' id' db' ≡ total_at ev' id' db
  total_at-Patched ev' id' = rw o.fulfillments refl

-- The row that `createPledge` leaves.
pub create_pledge-Opened :
    (entitled : Check) (ctx : OperationContext) (input : CreatePledgeInput) (env : Env) (db : Db)
    {db' : Db} {v : PledgeView}
    → create_pledge entitled ctx input env db ≡ ok (v, db')
    → Opened (new_pledge ctx input env) db db'
unfolding create_pledge
create_pledge-Opened entitled ctx input env db h = ground arith

-- What a correction of the committed amount writes into the row.
abbrev pub corrected : ℤ → PledgeStatus → Pledge → Pledge
corrected v s p = record p { committed_value = v; status = s }

module _ (ctx : OperationContext) (pledge_id : ℕ) (db : Db) where
  pub record Corrected (v : ℤ) (db' : Db) : Type 0 where
    pub current : Pledge
    pub there : find_pledge ctx.event_id pledge_id db.pledges ≡ some current
    pub patched :
        Patched ctx.event_id pledge_id
          (corrected v
            (derive_status v (total_at ctx.event_id pledge_id db) (is_cancelled current.status)))
          db
          db'

  pub correct_committed_value-Corrected :
      (new_value : ℤ) {db' : Db} {v : PledgeView}
      → correct_committed_value ctx pledge_id new_value db ≡ ok (v, db')
      → Corrected new_value db'
  unfolding correct_committed_value
  correct_committed_value-Corrected new_value h =
      elim (Option-cases (find_pledge ctx.event_id pledge_id db.pledges)) [
        | inl missing ↦ absurd (ground arith)
        | inr (q, there) ↦ record { current = q; there = there; patched = ground arith }
      ]

  pub cancel_pledge-Patched :
      {db' : Db} {v : PledgeView}
      → cancel_pledge ctx pledge_id db ≡ ok (v, db')
      → Patched ctx.event_id pledge_id (λ p. record p { status = cancelled }) db db'
  unfolding cancel_pledge
  cancel_pledge-Patched h = ground arith
