-- ===== src/Ledger/Operations/Keeps.antt =====
-- Each kind of change keeps the derived status, and keeps every pledge within its commitment.
use akabbo.Prelude.{ℕ, ◌≡◌, refl, ap, none, some, is_some, arith}
use akabbo.Prelude.Int.{ℤ, pos, ◌≤ℤ◌, +ℤ-zero}
use akabbo.Prelude.Result.{ok}
use akabbo.Prelude.Tx.{Tx, pure, >>=-eq-ok}
use akabbo.Access.Gates.{OperationContext}
use akabbo.Ledger.Status.{cancelled, derive_status_cases}
use akabbo.Ledger.Tables.{Db, Pledge}
use akabbo.Ledger.Store.{find_pledge}
use akabbo.Ledger.Store.Updates.{UniqueIds, revalue-UniqueIds}
use akabbo.Ledger.Store.Keys.{one_more-HasKeys}
use akabbo.Ledger.Pledges.{Env, is_cancelled}
use akabbo.Ledger.Pledges.Effects.{
  Opened-StatusOk, Opened-WithinOk, pledge_at-Opened, total_at-Opened, Patched, pledge_at-Patched,
  total_at-Patched, Corrected,
}
use akabbo.Ledger.Fulfillments.{WriteInput}
use akabbo.Ledger.Operations.{discard}
use akabbo.Ledger.Operations.Keyed.{Written-HasKeys, Patched-HasKeys, Revalued-HasKeys}
use akabbo.Ledger.Fulfillments.Write.{restatus, Written, Written-StatusOk, Written-WithinOk}
use akabbo.Ledger.Payments.{RecordFulfillmentInput}
use akabbo.Ledger.Payments.Booking.{Booked}
use akabbo.Ledger.Contributions.Opening.{OpenedFor, OpenedAndPaid}
use akabbo.Ledger.Payments.Correction.{Revalued, Revalued-StatusOk, Revalued-WithinOk}
use akabbo.Ledger.Invariant.{IsDerived, IsWithin, IsFresh, total_at}

module _ (ctx : OperationContext) (env : Env) (db : Db) (fresh : IsFresh ctx env db) where
  pub Written-UniqueIds :
      (input : WriteInput) (db1 db' : Db)
      → db1.fulfillments ≡ db.fulfillments
      → Written ctx input env db1 db'
      → UniqueIds db.fulfillments
      → UniqueIds db'.fulfillments
  Written-UniqueIds input db1 db' same w u = rw (w.fulfillments, same) (fresh.fulfillment, u)

  pub Booked-IsDerived :
      {input : RecordFulfillmentInput} {db' : Db}
      → Booked ctx input env db db'
      → IsDerived db
      → IsDerived db'
  Booked-IsDerived {input} {db'} b h = record {
    rows = λ ev id.
        Written-StatusOk ctx _ env db db' b.written b.pledge b.there refl ev id (h.rows ev id);
    unique = Written-UniqueIds _ db db' refl b.written h.unique;
    keys = Written-HasKeys ctx env _ db db' b.written (ap is_some b.there) h.keys;
  }

  pub Booked-IsWithin :
      {input : RecordFulfillmentInput} {db' : Db}
      → Booked ctx input env db db'
      → IsWithin db
      → IsWithin db'
  Booked-IsWithin {input} {db'} b h = record {
    rows = λ ev id.
        Written-WithinOk ctx _ env db db' b.written b.pledge b.there refl ev id b.room
          (h.rows ev id);
    unique = Written-UniqueIds _ db db' refl b.written h.unique;
  }

  module _ {committed : ℤ} {db1 : Db} (o : OpenedFor ctx env committed db db1) where
    fresh_row : find_pledge o.row.event_id o.row.id db.pledges ≡ none
    fresh_row = rw (o.event_id, o.id) fresh.pledge

    -- The new pledge is found under the fresh id.
    opened_row : find_pledge ctx.event_id env.pledge_id db1.pledges ≡ some o.row
    opened_row =
        ground (
          arith,
          pledge_at-Opened o.row db db1 o.opened ctx.event_id env.pledge_id,
          o.event_id,
          o.id,
        )

    pub OpenedFor-IsDerived : IsDerived db → IsDerived db1
    OpenedFor-IsDerived h = record {
      rows = λ ev id. Opened-StatusOk o.row db db1 o.opened ev id fresh_row o.status (h.rows ev id);
      unique = rw (o.opened.fulfillments) h.unique;
      keys =
          rw (o.opened.pledges, o.opened.fulfillments)
            (one_more-HasKeys o.row db.pledges db.fulfillments fresh_row h.keys);
    }

    pub OpenedFor-IsWithin : pos 0 ≤ℤ committed → IsWithin db → IsWithin db1
    OpenedFor-IsWithin c h = record {
      rows = λ ev id.
          Opened-WithinOk o.row db db1 o.opened ev id fresh_row (rw (o.committed_value) c)
            (h.rows ev id);
      unique = rw (o.opened.fulfillments) h.unique;
    }

  pub OpenedAndPaid-IsDerived :
      {input : WriteInput} {db' : Db}
      → OpenedAndPaid ctx env input db db'
      → input.pledge_id ≡ env.pledge_id
      → IsDerived db
      → IsDerived db'
  OpenedAndPaid-IsDerived {input} {db'} o e h =
      let h1 = OpenedFor-IsDerived o.opening h in
      record {
        rows = λ ev id.
            Written-StatusOk ctx input env o.between db' o.written o.opening.row
              (rw e (opened_row o.opening)) o.opening.committed_value ev id (h1.rows ev id);
        unique =
            Written-UniqueIds input o.between db' o.opening.opened.fulfillments o.written h.unique;
        keys =
            Written-HasKeys ctx env input o.between db' o.written
              (rw (e, opened_row o.opening) refl) h1.keys;
      }

  -- Nothing is booked under a fresh id.
  fresh_total : IsWithin db → total_at ctx.event_id env.pledge_id db ≡ pos 0
  fresh_total h = rw fresh.pledge at (h.rows ctx.event_id env.pledge_id)

  pub OpenedAndPaid-IsWithin :
      {input : WriteInput} {db' : Db}
      → OpenedAndPaid ctx env input db db'
      → input.pledge_id ≡ env.pledge_id
      → pos 0 ≤ℤ input.committed_value
      → input.value ≤ℤ input.committed_value
      → IsWithin db
      → IsWithin db'
  OpenedAndPaid-IsWithin {input} {db'} o e c room h =
      let h1 = OpenedFor-IsWithin o.opening c h in
      record {
        rows = λ ev id.
            Written-WithinOk ctx input env o.between db' o.written o.opening.row
              (rw e (opened_row o.opening)) o.opening.committed_value ev id
              (rw
                (
                  e,
                  total_at-Opened o.opening.row db o.between o.opening.opened ctx.event_id
                      env.pledge_id,
                  fresh_total h,
                  +ℤ-zero,
                )
                room)
              (h1.rows ev id);
        unique =
            Written-UniqueIds input o.between db' o.opening.opened.fulfillments o.written h.unique;
      }

module _ (ctx : OperationContext) (db : Db) where
  Patched-unique :
      {id : ℕ} {g : Pledge → Pledge} {db' : Db}
      → Patched ctx.event_id id g db db'
      → UniqueIds db.fulfillments
      → UniqueIds db'.fulfillments
  Patched-unique p u = rw (p.fulfillments) u

  pub Corrected-IsDerived :
      {id : ℕ} {v : ℤ} {db' : Db} → Corrected ctx id db v db' → IsDerived db → IsDerived db'
  Corrected-IsDerived {id} {v} {db'} c h = record {
    rows = λ ev i.
        rw
          (
            pledge_at-Patched ctx.event_id id _ db db' c.patched (λ p. (refl, refl)) ev i,
            total_at-Patched ctx.event_id id _ db db' c.patched (λ p. (refl, refl)) ev i,
          )
          (ground (
            arith,
            h.rows ev i,
            derive_status_cases v (total_at ctx.event_id id db) (is_cancelled c.current.status),
          ));
    unique = Patched-unique c.patched h.unique;
    keys = Patched-HasKeys ctx db c.patched (λ p. (refl, refl)) h.keys;
  }

  pub Corrected-IsWithin :
      {id : ℕ} {v : ℤ} {db' : Db}
      → Corrected ctx id db v db'
      → total_at ctx.event_id id db ≤ℤ v
      → IsWithin db
      → IsWithin db'
  Corrected-IsWithin {id} {v} {db'} c covered h = record {
    rows = λ ev i.
        rw
          (
            pledge_at-Patched ctx.event_id id _ db db' c.patched (λ p. (refl, refl)) ev i,
            total_at-Patched ctx.event_id id _ db db' c.patched (λ p. (refl, refl)) ev i,
          )
          (ground (arith, h.rows ev i));
    unique = Patched-unique c.patched h.unique;
  }

  pub cancelled-IsDerived :
      {id : ℕ} {db' : Db}
      → Patched ctx.event_id id (restatus cancelled) db db'
      → IsDerived db
      → IsDerived db'
  cancelled-IsDerived {id} {db'} p h = record {
    rows = λ ev i.
        rw
          (
            pledge_at-Patched ctx.event_id id _ db db' p (λ q. (refl, refl)) ev i,
            total_at-Patched ctx.event_id id _ db db' p (λ q. (refl, refl)) ev i,
          )
          (ground (arith, h.rows ev i));
    unique = Patched-unique p h.unique;
    keys = Patched-HasKeys ctx db p (λ q. (refl, refl)) h.keys;
  }

  pub cancelled-IsWithin :
      {id : ℕ} {db' : Db}
      → Patched ctx.event_id id (restatus cancelled) db db'
      → IsWithin db
      → IsWithin db'
  cancelled-IsWithin {id} {db'} p h = record {
    rows = λ ev i.
        rw
          (
            pledge_at-Patched ctx.event_id id _ db db' p (λ q. (refl, refl)) ev i,
            total_at-Patched ctx.event_id id _ db db' p (λ q. (refl, refl)) ev i,
          )
          (ground (arith, h.rows ev i));
    unique = Patched-unique p h.unique;
  }

  pub Revalued-IsDerived :
      {id : ℕ} {v : ℤ} {db' : Db} → Revalued ctx id v db db' → IsDerived db → IsDerived db'
  Revalued-IsDerived {id} {v} {db'} r h = record {
    rows = λ ev i. Revalued-StatusOk ctx id v db db' h.unique r ev i (h.rows ev i);
    unique = rw (r.fulfillments) (revalue-UniqueIds ctx.event_id id v db.fulfillments h.unique);
    keys = Revalued-HasKeys ctx db r h.keys;
  }

  pub Revalued-IsWithin :
      {id : ℕ} {v : ℤ} {db' : Db} → Revalued ctx id v db db' → IsWithin db → IsWithin db'
  Revalued-IsWithin {id} {v} {db'} r h = record {
    rows = λ ev i. Revalued-WithinOk ctx id v db db' h.unique r ev i (h.rows ev i);
    unique = rw (r.fulfillments) (revalue-UniqueIds ctx.event_id id v db.fulfillments h.unique);
  }

-- Inversion of a request whose result is dropped.
pub discard-eq-ok :
    {A : Type 0} (m : Tx Db A) (db : Db) {db' : Db}
    → discard m db ≡ ok (tt, db')
    → (a : A) × (m db ≡ ok (a, db'))
discard-eq-ok {A} m db {db'} h =
    let (a, db1, e, f) = >>=-eq-ok m (λ _. pure tt) db {r = (tt, db')} h in (a, rw e (cc f))
