-- ===== src/Ledger/Operations/Keyed.antt =====
-- Each kind of change keeps the keys of the ledger's tables.
use akabbo.Prelude.{ℕ, ◌≡◌, refl, true, is_some, ◌∷◌}
use mathlib.Core.Path.{subst, sym}
use akabbo.Prelude.Int.{ℤ}
use akabbo.Access.Gates.{OperationContext}
use akabbo.Ledger.Status.{derive_status}
use akabbo.Ledger.Tables.{Db, Pledge}
use akabbo.Ledger.Store.{find_pledge, map_pledge, map_fulfillment}
use akabbo.Ledger.Store.Updates.{KeepsKey, revalue}
use akabbo.Ledger.Store.Keys.{HasKeys, map_pledge-HasKeys, paid-HasKeys, revalue-HasKeys}
use akabbo.Ledger.Pledges.{Env, is_cancelled}
use akabbo.Ledger.Pledges.Effects.{Patched}
use akabbo.Ledger.Fulfillments.{WriteInput, new_fulfillment}
use akabbo.Ledger.Fulfillments.Write.{restatus, Written}
use akabbo.Ledger.Payments.Correction.{Revalued}
use akabbo.Ledger.Invariant.{total_at}

module _ (ctx : OperationContext) (env : Env) where
  pub Written-HasKeys :
      (input : WriteInput) (db1 db' : Db)
      → Written ctx input env db1 db'
      → is_some (find_pledge ctx.event_id input.pledge_id db1.pledges) ≡ true
      → HasKeys db1.pledges db1.fulfillments
      → HasKeys db'.pledges db'.fulfillments
  Written-HasKeys input db1 db' w there k =
      rw (w.pledges, w.fulfillments)
        (map_pledge-HasKeys ctx.event_id input.pledge_id _ (λ p. (refl, refl)) db1.pledges
          (new_fulfillment ctx input env ∷ db1.fulfillments)
          (paid-HasKeys (new_fulfillment ctx input env) db1.pledges db1.fulfillments there k))

module _ (ctx : OperationContext) (db : Db) where
  pub Patched-HasKeys :
      {id : ℕ} {g : Pledge → Pledge} {db' : Db}
      → Patched ctx.event_id id g db db'
      → KeepsKey g
      → HasKeys db.pledges db.fulfillments
      → HasKeys db'.pledges db'.fulfillments
  Patched-HasKeys {id} {g} p keeps k =
      rw (p.pledges, p.fulfillments)
        (map_pledge-HasKeys ctx.event_id id g keeps db.pledges db.fulfillments k)

  pub Revalued-HasKeys :
      {id : ℕ} {v : ℤ} {db' : Db}
      → Revalued ctx id v db db'
      → HasKeys db.pledges db.fulfillments
      → HasKeys db'.pledges db'.fulfillments
  Revalued-HasKeys {id} {v} {db'} r k =
      let g = restatus (
        derive_status r.pledge.committed_value (total_at ctx.event_id r.current.pledge_id db')
          (is_cancelled r.pledge.status)) in
      let fs = map_fulfillment ctx.event_id id (revalue v) db.fulfillments in
      let revalued = revalue-HasKeys ctx.event_id id v db.pledges db.fulfillments k in
      let kept =
        map_pledge-HasKeys ctx.event_id r.current.pledge_id g (λ p. (refl, refl)) db.pledges fs
          revalued in
      subst (λ ps. HasKeys ps db'.fulfillments) (sym r.pledges)
        (subst (HasKeys (map_pledge ctx.event_id r.current.pledge_id g db.pledges))
          (sym r.fulfillments) kept)
