-- ===== src/Ledger/Operations/Within.antt =====
-- No pledge is paid beyond its commitment, as long as requests cover what was received.
use akabbo.Prelude.{◌≡◌, refl, inl, inr, arith}
use mathlib.Core.Path.{subst, sym}
use akabbo.Prelude.Result.{ok}
use akabbo.Access.Gates.{OperationContext}
use akabbo.Access.Entitlement.{Check}
use akabbo.Ledger.Tables.{Db}
use akabbo.Ledger.Pledges
use akabbo.Ledger.Pledges.{Env, is_cancelled, new_pledge}
use akabbo.Ledger.Pledges.Effects.{
  create_pledge-Opened, correct_committed_value-Corrected, cancel_pledge-Patched,
}
use akabbo.Ledger.Operations.Keeps.{
  Booked-IsWithin, OpenedFor-IsWithin, OpenedAndPaid-IsWithin, Corrected-IsWithin,
  cancelled-IsWithin, Revalued-IsWithin, discard-eq-ok,
}
use akabbo.Ledger.Operations.{Operation, Covers, apply}
use akabbo.Ledger.Payments
use akabbo.Ledger.Contributions
use akabbo.Ledger.Payments.{RecordFulfillmentInput}
use akabbo.Ledger.Payments.Booking.{record_fulfillment_cases}
use akabbo.Ledger.Contributions.Opening.{
  record_direct_contribution_cases, record_pledge_with_payment_cases,
}
use akabbo.Ledger.Payments.Correction.{correct_value-Revalued}
use akabbo.Ledger.Invariant.{IsWithin, IsFresh}

module _ (c : Check) (ctx : OperationContext) (env : Env) (db db' : Db)
    (fresh : IsFresh ctx env db) where
  -- A request that goes through with fresh ids keeps every pledge paid within its commitment, if its
  -- amounts are those that `parseMoney` lets through and a corrected commitment covers what was
  -- already received.
  pub apply-IsWithin :
      (op : Operation)
      → apply c ctx op env db ≡ ok (tt, db')
      → Covers ctx op db
      → IsWithin db
      → IsWithin db'
  unfolding apply
  apply-IsWithin (Operation.create_pledge input) e covered h =
      let (v, k) = discard-eq-ok (Pledges.create_pledge c ctx input env) db e in
      OpenedFor-IsWithin ctx env db fresh
        (record {
          row = new_pledge ctx input env;
          event_id = refl;
          id = refl;
          status = refl;
          committed_value = refl;
          opened = create_pledge-Opened c ctx input env db {v = v} k;
        })
        covered h
  apply-IsWithin (Operation.correct_committed_value id v) e covered h =
      let (view, k) = discard-eq-ok (Pledges.correct_committed_value ctx id v) db e in
      Corrected-IsWithin ctx db (correct_committed_value-Corrected ctx id db v {v = view} k) covered
        h
  apply-IsWithin (Operation.cancel_pledge id) e covered h =
      let (view, k) = discard-eq-ok (Pledges.cancel_pledge ctx id) db e in
      cancelled-IsWithin ctx db (cancel_pledge-Patched ctx id db {v = view} k) h
  apply-IsWithin (Operation.record_fulfillment input) e covered h =
      let (view, k) = discard-eq-ok (Payments.record_fulfillment c ctx input env) db e in
      elim (record_fulfillment_cases ctx input env db c {v = view} k) [
        | inl (same, _) ↦ subst IsWithin (sym same) h
        | inr booked ↦ Booked-IsWithin ctx env db fresh booked h
      ]
  apply-IsWithin (Operation.record_direct_contribution input) e covered h =
      let (view, k) =
        discard-eq-ok (Contributions.record_direct_contribution c ctx input env) db e in
      elim (record_direct_contribution_cases ctx env db c input {v = view} k) [
        | inl (same, _) ↦ subst IsWithin (sym same) h
        | inr paid ↦ OpenedAndPaid-IsWithin ctx env db fresh paid refl covered (omega arith) h
      ]
  apply-IsWithin (Operation.record_pledge_with_payment input) e covered h =
      let (view, k) =
        discard-eq-ok (Contributions.record_pledge_with_payment c ctx input env) db e in
      let (bound, outcome) = record_pledge_with_payment_cases ctx env db c input {v = view} k in
      elim outcome [
        | inl opened ↦ OpenedFor-IsWithin ctx env db fresh opened covered h
        | inr paid ↦ OpenedAndPaid-IsWithin ctx env db fresh paid refl covered bound h
      ]
  apply-IsWithin (Operation.correct_value id v) e covered h =
      let (view, k) = discard-eq-ok (Payments.correct_value ctx id v) db e in
      Revalued-IsWithin ctx db (correct_value-Revalued ctx id v db {view = view} k) h
