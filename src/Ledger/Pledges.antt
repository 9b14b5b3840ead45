-- ===== src/Ledger/Pledges.antt =====
-- libs/ledger/src/pledge.service.ts: the operations of `PledgeService` that change state.
pub mod Effects
use akabbo.Prelude.{
  ℕ, Bool, true, false, not, String, Option, none, some, [], ◌∷◌, or_else, if◌then◌else◌,
}
use akabbo.Prelude.Int.{ℤ}
use akabbo.Prelude.Result.{not_entitled, not_found}
use akabbo.Prelude.Tx.{Tx, pure, gets, lift, found, throw_if, ◌>>=◌, ◌>>◌}
use akabbo.Access.Permission.{pledge_write, pledge_cancel, fulfillment_correct}
use akabbo.Access.Gates.{OperationContext, gates}
use akabbo.Access.Entitlement.{Check, create_pledge as create_pledge_action}
use akabbo.Ledger.Money.{money_to_string}
use akabbo.Ledger.Status.{PledgeStatus, pledged, cancelled, derive_status}
use akabbo.Ledger.Tables.{
  Db, Pledge, PledgeType, cash, ProvenanceSource, human_typed, manual_correction, text, ref,
  status_name, type_name,
}
use akabbo.Ledger.Store.{
  find_person, find_pledge, sum_fulfillments, create_pledge_row, update_pledge, write_audit,
}

-- What the database and the clock supply to a call: fresh ids and `Date.now()`.
pub record Env : Type 0 where
  pub person_id : ℕ
  pub pledge_id : ℕ
  pub fulfillment_id : ℕ
  pub now : ℕ

-- `CreatePledgeInput`
pub record CreatePledgeInput : Type 0 where
  pub person_id : ℕ
  pub committed_value : ℤ
  pub type : Option PledgeType
  pub target_budget_item_id : Option ℕ
  pub description : Option String
  pub quantity : Option ℕ
  pub unit : Option String
  pub estimated_value : Option ℤ
  pub source : Option ProvenanceSource

-- `PledgeView`
pub record PledgeView : Type 0 where
  pub id : ℕ
  pub person_id : ℕ
  pub type : PledgeType
  pub committed_value : String
  pub status : PledgeStatus
  pub source : ProvenanceSource

-- `toView`
unfoldable pub to_view : Pledge → PledgeView
to_view p = record {
  id = p.id;
  person_id = p.person_id;
  type = p.type;
  committed_value = money_to_string p.committed_value;
  status = p.status;
  source = p.source;
}

-- `isCancelled`: `status === PledgeStatus.CANCELLED`
abbrev pub is_cancelled : PledgeStatus → Bool
is_cancelled cancelled = true
is_cancelled _ = false

-- The row that `createPledge` inserts.
abbrev pub new_pledge : OperationContext → CreatePledgeInput → Env → Pledge
new_pledge ctx input env = record {
  id = env.pledge_id;
  event_id = ctx.event_id;
  person_id = input.person_id;
  type = or_else input.type cash;
  committed_value = input.committed_value;
  status = pledged;
  target_budget_item_id = input.target_budget_item_id;
  description = input.description;
  quantity = input.quantity;
  unit = input.unit;
  estimated_value = input.estimated_value;
  is_direct = false;
  source = or_else input.source human_typed;
  created_by = ctx.user_id;
}

-- `createPledge`
unfoldable pub create_pledge : Check → OperationContext → CreatePledgeInput → Env → Tx Db PledgeView
unfolding gates create_pledge_row write_audit to_view
create_pledge entitled ctx input env = do
  lift (gates ctx pledge_write)
  throw_if (not (entitled ctx.event_id create_pledge_action)) not_entitled
  person ← gets (λ db. find_person ctx.event_id input.person_id db.people)
  found person not_found
  let pledge = new_pledge ctx input env
  create_pledge_row pledge
  write_audit (record {
    event_id = ctx.event_id;
    actor_user_id = ctx.user_id;
    action = "pledge:create";
    resource_type = "pledge";
    resource_id = pledge.id;
    source = pledge.source;
    old_value = none;
    new_value = some (
        ("personId", ref pledge.person_id)
        ∷ ("committedValue", text (money_to_string pledge.committed_value))
        ∷ ("type", text (type_name pledge.type))
        ∷ []);
  })
  pure (to_view pledge)

-- `correctCommittedValue`
unfoldable pub correct_committed_value : OperationContext → ℕ → ℤ → Tx Db PledgeView
unfolding gates update_pledge write_audit to_view
correct_committed_value ctx pledge_id new_value = do
  lift (gates ctx fulfillment_correct)
  row ← gets (λ db. find_pledge ctx.event_id pledge_id db.pledges)
  current ← found row not_found
  total ← gets (λ db. sum_fulfillments ctx.event_id pledge_id db.fulfillments)
  let status = derive_status new_value total (is_cancelled current.status)
  update_pledge ctx.event_id pledge_id
      (λ p. record p { committed_value = new_value; status = status })
  write_audit (record {
    event_id = ctx.event_id;
    actor_user_id = ctx.user_id;
    action = "pledge:correct";
    resource_type = "pledge";
    resource_id = pledge_id;
    source = manual_correction;
    old_value = some (("committedValue", text (money_to_string current.committed_value)) ∷ []);
    new_value = some (("committedValue", text (money_to_string new_value)) ∷ []);
  })
  pure (to_view (record current { committed_value = new_value; status = status }))

-- `cancelPledge`
unfoldable pub cancel_pledge : OperationContext → ℕ → Tx Db PledgeView
unfolding gates update_pledge write_audit to_view
cancel_pledge ctx pledge_id = do
  lift (gates ctx pledge_cancel)
  row ← gets (λ db. find_pledge ctx.event_id pledge_id db.pledges)
  current ← found row not_found
  update_pledge ctx.event_id pledge_id (λ p. record p { status = cancelled })
  write_audit (record {
    event_id = ctx.event_id;
    actor_user_id = ctx.user_id;
    action = "pledge:cancel";
    resource_type = "pledge";
    resource_id = pledge_id;
    source = human_typed;
    old_value = some (("status", text (status_name current.status)) ∷ []);
    new_value = some (("status", text (status_name cancelled)) ∷ []);
  })
  pure (to_view (record current { status = cancelled }))
