-- ===== src/Ledger/Operations/Isolation.antt =====
-- Tenant isolation: a request in one event leaves the pledges and the payments of every other event
-- as they were.
use akabbo.Prelude.{ℕ, ◌≡◌, ◌≢◌, refl, inl, inr, List, [], ◌∷◌, ◌∙◌, arith}
use akabbo.Prelude.Int.{ℤ}
use akabbo.Prelude.Result.{ok}
use akabbo.Access.Gates.{OperationContext}
use akabbo.Access.Entitlement.{Check}
use akabbo.Ledger.Tables.{Db, Pledge, Fulfillment}
use akabbo.Ledger.Pledges
use akabbo.Ledger.Pledges.{Env, new_pledge}
use akabbo.Ledger.Pledges.Effects.{
  Opened, pledge_at-Opened, total_at-Opened, Patched, create_pledge-Opened,
  correct_committed_value-Corrected, cancel_pledge-Patched,
}
use akabbo.Ledger.Store.{find_pledge, sum_fulfillments, map_pledge, map_fulfillment}
use akabbo.Ledger.Store.Updates.{KeepsKey, revalue, find_pledge-map_pledge}
use akabbo.Ledger.Fulfillments.{WriteInput}
use akabbo.Ledger.Fulfillments.Write.{Written}
use akabbo.Ledger.Payments
use akabbo.Ledger.Contributions
use akabbo.Ledger.Payments.Booking.{record_fulfillment_cases}
use akabbo.Ledger.Contributions.Opening.{
  OpenedAndPaid, record_direct_contribution_cases, record_pledge_with_payment_cases,
}
use akabbo.Ledger.Payments.Correction.{Revalued, correct_value-Revalued}
use akabbo.Ledger.Invariant.{pledge_at, total_at}
use akabbo.Ledger.Operations.{Operation, apply}
use akabbo.Ledger.Operations.Keeps.{discard-eq-ok}

-- The same pledges with the same totals in the event `ev`.
abbrev pub SameEvent : ℕ → Db → Db → Type 0
SameEvent ev db db' =
    (id : ℕ) → (pledge_at ev id db' ≡ pledge_at ev id db) × (total_at ev id db' ≡ total_at ev id db)

module _ (ev ev' : ℕ) (ne : ev' ≢ ev) where
  find_pledge_other :
      (id id' : ℕ) (g : Pledge → Pledge) (ps : List Pledge)
      → KeepsKey g
      → find_pledge ev' id' (map_pledge ev id g ps) ≡ find_pledge ev' id' ps
  find_pledge_other id id' g ps k = ground (arith, find_pledge-map_pledge ev id ev' id' g ps k)

  sum_fulfillments_other :
      (id pid : ℕ) (v : ℤ) (fs : List Fulfillment)
      → sum_fulfillments ev' pid (map_fulfillment ev id (revalue v) fs)
        ≡ sum_fulfillments ev' pid fs
  unfolding sum_fulfillments map_fulfillment
  sum_fulfillments_other id pid v [] = refl
  sum_fulfillments_other id pid v (f ∷ fs) = ground (arith, sum_fulfillments_other id pid v fs)

module _ (ctx : OperationContext) (env : Env) (ev : ℕ) (ne : ev ≢ ctx.event_id) where
  Written-SameEvent :
      (input : WriteInput) (db db' : Db) → Written ctx input env db db' → SameEvent ev db db'
  Written-SameEvent input db db' w id = (
    rw (w.pledges)
        (find_pledge_other ctx.event_id ev ne input.pledge_id id _ db.pledges (λ p. (refl, refl))),
    rw (w.fulfillments) (unfold sum_fulfillments in ground arith),
  )

  Opened-SameEvent :
      (p : Pledge) (db db' : Db) → p.event_id ≡ ctx.event_id → Opened p db db' → SameEvent ev db db'
  Opened-SameEvent p db db' e o id =
      (ground (arith, pledge_at-Opened p db db' o ev id), total_at-Opened p db db' o ev id)

  Patched-SameEvent :
      (pid : ℕ) (g : Pledge → Pledge) (db db' : Db)
      → KeepsKey g
      → Patched ctx.event_id pid g db db'
      → SameEvent ev db db'
  Patched-SameEvent pid g db db' k p id = (
    rw (p.pledges) (find_pledge_other ctx.event_id ev ne pid id g db.pledges k),
    rw (p.fulfillments),
  )

  Revalued-SameEvent :
      (fid : ℕ) (v : ℤ) (db db' : Db) → Revalued ctx fid v db db' → SameEvent ev db db'
  Revalued-SameEvent fid v db db' r id = (
    rw (r.pledges) (
        find_pledge_other ctx.event_id ev ne r.current.pledge_id id _ db.pledges
          (λ p. (refl, refl))),
    rw (r.fulfillments) (sum_fulfillments_other ctx.event_id ev ne fid id v db.fulfillments),
  )

  OpenedAndPaid-SameEvent :
      (input : WriteInput) (db db' : Db) → OpenedAndPaid ctx env input db db' → SameEvent ev db db'
  OpenedAndPaid-SameEvent input db db' o id =
      let (p1, t1) =
        Opened-SameEvent o.opening.row db o.between o.opening.event_id o.opening.opened id in
      let (p2, t2) = Written-SameEvent input o.between db' o.written id in (p2 ∙ p1, t2 ∙ t1)

  -- A request in one event leaves the pledges and the totals of every other event as they were.
  pub apply-SameEvent :
      (c : Check) (op : Operation) (db : Db) {db' : Db}
      → apply c ctx op env db ≡ ok (tt, db')
      → SameEvent ev db db'
  unfolding apply
  apply-SameEvent c (Operation.create_pledge input) db {db'} e =
      let (v, k) = discard-eq-ok (Pledges.create_pledge c ctx input env) db e in
      Opened-SameEvent (new_pledge ctx input env) db db' refl
        (create_pledge-Opened c ctx input env db {v = v} k)
  apply-SameEvent c (Operation.correct_committed_value id v) db {db'} e =
      let (view, k) = discard-eq-ok (Pledges.correct_committed_value ctx id v) db e in
      let made = correct_committed_value-Corrected ctx id db v {v = view} k in
      Patched-SameEvent id _ db db' (λ p. (refl, refl)) made.patched
  apply-SameEvent c (Operation.cancel_pledge id) db {db'} e =
      let (view, k) = discard-eq-ok (Pledges.cancel_pledge ctx id) db e in
      Patched-SameEvent id _ db db' (λ p. (refl, refl))
        (cancel_pledge-Patched ctx id db {v = view} k)
  apply-SameEvent c (Operation.record_fulfillment input) db {db'} e =
      let (view, k) = discard-eq-ok (Payments.record_fulfillment c ctx input env) db e in
      elim (record_fulfillment_cases ctx input env db c {v = view} k) [
        | inl (same, _) ↦ rw same (λ id. (refl, refl))
        | inr booked ↦ Written-SameEvent _ db db' booked.written
      ]
  apply-SameEvent c (Operation.record_direct_contribution input) db {db'} e =
      let (view, k) =
        discard-eq-ok (Contributions.record_direct_contribution c ctx input env) db e in
      elim (record_direct_contribution_cases ctx env db c input {v = view} k) [
        | inl (same, _) ↦ rw same (λ id. (refl, refl))
        | inr paid ↦ OpenedAndPaid-SameEvent _ db db' paid
      ]
  apply-SameEvent c (Operation.record_pledge_with_payment input) db {db'} e =
      let (view, k) =
        discard-eq-ok (Contributions.record_pledge_with_payment c ctx input env) db e in
      elim ((record_pledge_with_payment_cases ctx env db c input {v = view} k).1) [
        | inl opened ↦ Opened-SameEvent opened.row db db' opened.event_id opened.opened
        | inr paid ↦ OpenedAndPaid-SameEvent _ db db' paid
      ]
  apply-SameEvent c (Operation.correct_value id v) db {db'} e =
      let (view, k) = discard-eq-ok (Payments.correct_value ctx id v) db e in
      Revalued-SameEvent id v db db' (correct_value-Revalued ctx id v db {view = view} k)
