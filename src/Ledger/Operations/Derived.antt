-- ===== src/Ledger/Operations/Derived.antt =====
-- The derived status is kept by every request, and so in every ledger that requests lead to.
use akabbo.Prelude.{◌≡◌, refl, inl, inr}
use mathlib.Core.Path.{subst, sym}
use akabbo.Prelude.Result.{ok}
use akabbo.Access.Gates.{OperationContext}
use akabbo.Access.Entitlement.{Check}
use akabbo.Ledger.Tables.{Db}
use akabbo.Ledger.Pledges
use akabbo.Ledger.Pledges.{Env, is_cancelled, new_pledge}
use akabbo.Ledger.Pledges.Effects.{
  create_pledge-Opened, correct_committed_value-Corrected, cancel_pledge-Patched,
}
use akabbo.Ledger.Operations.Keeps.{
  Booked-IsDerived, OpenedFor-IsDerived, OpenedAndPaid-IsDerived, Corrected-IsDerived,
  cancelled-IsDerived, Revalued-IsDerived, discard-eq-ok,
}
use akabbo.Ledger.Operations.{Operation, step, Reach, here, next, apply}
use akabbo.Ledger.Payments
use akabbo.Ledger.Contributions
use akabbo.Ledger.Payments.{RecordFulfillmentInput}
use akabbo.Ledger.Payments.Booking.{record_fulfillment_cases}
use akabbo.Ledger.Contributions.Opening.{
  record_direct_contribution_cases, record_pledge_with_payment_cases,
}
use akabbo.Ledger.Payments.Correction.{correct_value-Revalued}
use akabbo.Ledger.Invariant.{IsDerived, IsFresh}

module _ (c : Check) (ctx : OperationContext) (env : Env) (db db' : Db)
    (fresh : IsFresh ctx env db) where
  -- Whatever request goes through with fresh ids, every stored status of a pledge that is not
  -- cancelled stays the one that the numbers give, every payment has its pledge, and the ids stay unique.
  pub apply-IsDerived :
      (op : Operation) → apply c ctx op env db ≡ ok (tt, db') → IsDerived db → IsDerived db'
  unfolding apply
  apply-IsDerived (Operation.create_pledge input) e h =
      let (v, k) = discard-eq-ok (Pledges.create_pledge c ctx input env) db e in
      OpenedFor-IsDerived ctx env db fresh
        (record {
          row = new_pledge ctx input env;
          event_id = refl;
          id = refl;
          status = refl;
          committed_value = refl;
          opened = create_pledge-Opened c ctx input env db {v = v} k;
        })
        h
  apply-IsDerived (Operation.correct_committed_value id v) e h =
      let (view, k) = discard-eq-ok (Pledges.correct_committed_value ctx id v) db e in
      Corrected-IsDerived ctx db (correct_committed_value-Corrected ctx id db v {v = view} k) h
  apply-IsDerived (Operation.cancel_pledge id) e h =
      let (view, k) = discard-eq-ok (Pledges.cancel_pledge ctx id) db e in
      cancelled-IsDerived ctx db (cancel_pledge-Patched ctx id db {v = view} k) h
  apply-IsDerived (Operation.record_fulfillment input) e h =
      let (view, k) = discard-eq-ok (Payments.record_fulfillment c ctx input env) db e in
      elim (record_fulfillment_cases ctx input env db c {v = view} k) [
        | inl (same, _) ↦ subst IsDerived (sym same) h
        | inr booked ↦ Booked-IsDerived ctx env db fresh booked h
      ]
  apply-IsDerived (Operation.record_direct_contribution input) e h =
      let (view, k) =
        discard-eq-ok (Contributions.record_direct_contribution c ctx input env) db e in
      elim (record_direct_contribution_cases ctx env db c input {v = view} k) [
        | inl (same, _) ↦ subst IsDerived (sym same) h
        | inr paid ↦ OpenedAndPaid-IsDerived ctx env db fresh paid refl h
      ]
  apply-IsDerived (Operation.record_pledge_with_payment input) e h =
      let (view, k) =
        discard-eq-ok (Contributions.record_pledge_with_payment c ctx input env) db e in
      elim ((record_pledge_with_payment_cases ctx env db c input {v = view} k).1) [
        | inl opened ↦ OpenedFor-IsDerived ctx env db fresh opened h
        | inr paid ↦ OpenedAndPaid-IsDerived ctx env db fresh paid refl h
      ]
  apply-IsDerived (Operation.correct_value id v) e h =
      let (view, k) = discard-eq-ok (Payments.correct_value ctx id v) db e in
      Revalued-IsDerived ctx db (correct_value-Revalued ctx id v db {view = view} k) h

-- If it holds of the ledger before, it holds after whatever requests of whatever users went through
-- in whatever order, with ids that were new to the event: every pledge that is not cancelled has the
-- status that its commitment and the sum of its payments give, every payment is booked on a pledge that
-- is there, and no two pledges and no two payments of an event share an id.
pub Reach-IsDerived : {c : Check} {db db' : Db} → IsDerived db → Reach c db db' → IsDerived db'
Reach-IsDerived h here = h
Reach-IsDerived {c} h (next r (step ctx op env db1 db2 fresh e)) =
    apply-IsDerived c ctx env db1 db2 fresh op e (Reach-IsDerived h r)
