-- ===== src/Book/Budget/Versions.antt =====
-- Two people who edit one line of the budget.
use akabbo.Prelude.{
  ℕ, ◌+◌, ==_refl, ◌≡◌, refl, ◌∙◌, ap, true, Option, none, some, List, [], ◌∷◌, arith,
}
use akabbo.Prelude.Result.{ok, err, conflict}
use akabbo.Access.Permission.{budget_write}
use akabbo.Access.Gates.{OperationContext, gates, gates_open}
use akabbo.Ledger.Tables.{manual_correction}
use akabbo.Book.Tables.{Db, BudgetItem, log, find_item, map_item}
use akabbo.Book.Budget.{ItemChanges, changed, line, stale, BudgetItemView, item_view, update_item}

abbrev map_option {ℓ} : {A : Type ℓ} → (A → A) → Option A → Option A
map_option g none = none
map_option g (some a) = some (g a)

find_item-update :
    (ev id : ℕ) (input : ItemChanges) (items : List BudgetItem)
    → find_item ev id (map_item ev id (changed input) items)
      ≡ map_option (changed input) (find_item ev id items)
unfolding find_item map_item
find_item-update ev id input [] = refl
find_item-update ev id input (i ∷ items) = ground (arith, find_item-update ev id input items)

-- The tables after an update that went through.
after_update : OperationContext → ℕ → ItemChanges → BudgetItem → Db → Db
after_update ctx id input current db = record db {
  items = map_item ctx.event_id id (changed input) db.items;
  ledger = record db.ledger {
    audit =
        record {
          event_id = ctx.event_id;
          actor_user_id = ctx.user_id;
          action = "budget_item:update";
          resource_type = "budget_item";
          resource_id = id;
          source = manual_correction;
          old_value = some (line current);
          new_value = some (line (changed input current));
        }
        ∷ db.ledger.audit;
  };
}

module _ (ctx : OperationContext) (id : ℕ) (input : ItemChanges) (current : BudgetItem) (db : Db)
    (open_gates : gates ctx budget_write ≡ ok tt)
    (there : find_item ctx.event_id id db.items ≡ some current) where
  update_runs :
      input.expected_version ≡ some current.version
      → update_item ctx id input db
        ≡ ok (item_view (changed input current), after_update ctx id input current db)
  unfolding update_item log after_update
  update_runs read = ground (arith, gates_open ctx budget_write open_gates, ==_refl current.version)

  update_refused :
      stale input.expected_version current.version ≡ true
      → update_item ctx id input db ≡ err conflict
  unfolding update_item
  update_refused old = ground (arith, gates_open ctx budget_write open_gates)

module _ (ctx ctx' : OperationContext) (id : ℕ) (input input' : ItemChanges) (current : BudgetItem)
    (db : Db) where
  -- Two people who may change the budget of one writable event, and who both loaded a line at the same
  -- version: the first one's update goes through and raises the version by one, and the second one's,
  -- whatever it would change, is refused as a conflict.
  pub update_item_conflict :
      gates ctx budget_write ≡ ok tt
      → gates ctx' budget_write ≡ ok tt
      → ctx'.event_id ≡ ctx.event_id
      → find_item ctx.event_id id db.items ≡ some current
      → input.expected_version ≡ some current.version
      → input'.expected_version ≡ some current.version
      → (v : BudgetItemView) × (db' : Db) × (update_item ctx id input db ≡ ok (v, db'))
        × (find_item ctx.event_id id db'.items ≡ some (changed input current))
        × (v.version ≡ current.version + 1)
        × (update_item ctx' id input' db' ≡ err conflict)
  unfolding item_view after_update
  update_item_conflict open_gates open_gates' same there read read' =
      let there' : find_item ctx.event_id id (after_update ctx id input current db).items
          ≡ some (changed input current) =
        find_item-update ctx.event_id id input db.items ∙ ap (map_option (changed input)) there in
      (
        item_view (changed input current),
        after_update ctx id input current db,
        update_runs ctx id input current db open_gates there read,
        there',
        refl,
        update_refused ctx' id input' (changed input current) (after_update ctx id input current db)
            open_gates' (rw same there') (ground arith),
      )
