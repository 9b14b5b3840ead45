-- ===== src/Book/Budget.antt =====
-- libs/ledger/src/budget.service.ts and allocation.service.ts: the lines of an event's budget, and the
-- money received that is set against them.
pub mod Backed
pub mod Versions
use akabbo.Prelude.{
  ℕ, suc, ◌+◌, ◌==◌, ltb, Bool, true, false, not, ◌&&◌, String, Option, none, some, List, [], ◌∷◌,
  if◌then◌else◌, or_else,
}
use akabbo.Prelude.Int.{ℤ}
use akabbo.Prelude.Result.{ok, not_found, conflict}
use akabbo.Prelude.Tx.{Tx, pure, gets, lift, found, modify, throw_if, ◌>>=◌, ◌>>◌}
use mathlib.Core.List.{reverse}
use akabbo.Access.Permission.{budget_write, budget_read, assert}
use akabbo.Access.Gates.{OperationContext, gates}
use akabbo.Ledger.Money.{money_to_string}
use akabbo.Ledger.Store.{is_row, find_fulfillment}
use akabbo.Ledger.Tables.{
  Pledge, Snapshot, ProvenanceSource, human_typed, manual_correction, text, ref,
}
use akabbo.Book.Tables.{Db, Budget, BudgetItem, Allocation, log, find_item, map_item, delete_item}

-- `BudgetItemInput`
pub record BudgetItemInput : Type 0 where
  pub name : String
  pub target_value : ℤ
  pub source : Option ProvenanceSource
  pub confidence : Option ℕ
  pub source_document_id : Option ℕ

-- `BudgetItemView`
pub record BudgetItemView : Type 0 where
  pub id : ℕ
  pub name : String
  pub target_value : String
  pub source : ProvenanceSource
  pub source_document_id : Option ℕ
  pub version : ℕ

-- `toView`
unfoldable pub item_view : BudgetItem → BudgetItemView
item_view i = record {
  id = i.id;
  name = i.name;
  target_value = money_to_string i.target_value;
  source = i.source;
  source_document_id = i.source_document_id;
  version = i.version;
}

-- `tx.budget.findFirst({ where: { eventId } })`
unfoldable pub find_budget : ℕ → List Budget → Option Budget
find_budget ev [] = none
find_budget ev (b ∷ bs) = if b.event_id == ev then some b else find_budget ev bs

-- `ensureBudget`; `id` is the id that the database draws.
unfoldable pub ensure_budget : ℕ → ℕ → Tx Db ℕ
unfolding find_budget
ensure_budget ev id db = elim (find_budget ev db.budgets) [
  | some b ↦ ok (b.id, db)
  | none ↦ ok (id, record db { budgets = record { id = id; event_id = ev } ∷ db.budgets })
]

abbrev pub line : BudgetItem → Snapshot
line i = ("name", text i.name) ∷ ("targetValue", text (money_to_string i.target_value)) ∷ []

abbrev pub new_item : OperationContext → BudgetItemInput → ℕ → ℕ → BudgetItem
new_item ctx input budget id = record {
  id = id;
  event_id = ctx.event_id;
  budget_id = budget;
  name = input.name;
  target_value = input.target_value;
  is_public = true;
  source = or_else input.source human_typed;
  confidence = input.confidence;
  source_document_id = input.source_document_id;
  created_by = ctx.user_id;
  version = 1;
}

-- `addItem`; the ids are those of a new budget and of the new line.
unfoldable pub add_item : OperationContext → BudgetItemInput → ℕ → ℕ → Tx Db BudgetItemView
unfolding gates ensure_budget log item_view
add_item ctx input new_budget id = do
  lift (gates ctx budget_write)
  budget ← ensure_budget ctx.event_id new_budget
  let item = new_item ctx input budget id
  modify (λ db. record db { items = item ∷ db.items })
  log ctx "budget_item:create" ("budget_item", id) item.source none (some (line item))
  pure (item_view item)

-- The changes of `updateItem`; an absent one keeps the value.
pub record ItemChanges : Type 0 where
  pub name : Option String
  pub target_value : Option ℤ
  pub is_public : Option Bool
  pub expected_version : Option ℕ

abbrev pub changed : ItemChanges → BudgetItem → BudgetItem
changed input i = record i {
  name = or_else input.name i.name;
  target_value = or_else input.target_value i.target_value;
  is_public = or_else input.is_public i.is_public;
  version = i.version + 1;
}

-- `expectedVersion !== undefined && expectedVersion !== current.version`
abbrev pub stale : Option ℕ → ℕ → Bool
stale none version = false
stale (some v) version = not (v == version)

-- `updateItem`
unfoldable pub update_item : OperationContext → ℕ → ItemChanges → Tx Db BudgetItemView
unfolding gates map_item log item_view
update_item ctx id input = do
  lift (gates ctx budget_write)
  row ← gets (λ db. find_item ctx.event_id id db.items)
  current ← found row not_found
  throw_if (stale input.expected_version current.version) conflict
  modify (λ db. record db { items = map_item ctx.event_id id (changed input) db.items })
  log ctx "budget_item:update" ("budget_item", id) manual_correction (some (line current))
      (some (line (changed input current)))
  pure (item_view (changed input current))

-- `tx.allocation.count({ where: { budgetItemId } })`
unfoldable pub count_allocations : ℕ → ℕ → List Allocation → ℕ
count_allocations ev item [] = 0
count_allocations ev item (a ∷ rest) =
    let n = count_allocations ev item rest in
    if is_row ev item a.event_id a.budget_item_id then suc n else n

-- What the deletion of a line does to the pledges that aim at it (`onDelete: SetNull`).
unfoldable pub clear_target : ℕ → ℕ → List Pledge → List Pledge
clear_target ev item [] = []
clear_target ev item (p ∷ ps) =
    (if (p.event_id == ev) && elim p.target_budget_item_id [ none ↦ false | some i ↦ i == item ]
      then record p { target_budget_item_id = none }
      else p)
    ∷ clear_target ev item ps

-- `removeItem`
unfoldable pub remove_item : OperationContext → ℕ → Tx Db (ℕ × String)
unfolding gates count_allocations delete_item clear_target log
remove_item ctx id = do
  lift (gates ctx budget_write)
  row ← gets (λ db. find_item ctx.event_id id db.items)
  item ← found row not_found
  allocated ← gets (λ db. count_allocations ctx.event_id id db.allocations)
  throw_if (ltb 0 allocated) conflict
  modify (λ db. record db {
    items = delete_item ctx.event_id id db.items;
    ledger = record db.ledger { pledges = clear_target ctx.event_id id db.ledger.pledges };
  })
  log ctx "budget_item:delete" ("budget_item", id) manual_correction (some (line item)) none
  pure (item.id, item.name)

-- `AllocationView`
pub record AllocationView : Type 0 where
  pub id : ℕ
  pub fulfillment_id : ℕ
  pub budget_item_id : ℕ
  pub value : String

-- `allocate` of allocation.service.ts; `id` is the id that the database draws.
unfoldable pub allocate : OperationContext → ℕ → ℕ → ℤ → ℕ → Tx Db AllocationView
unfolding gates log
allocate ctx fulfillment item value id = do
  lift (gates ctx budget_write)
  payment ← gets (λ db. find_fulfillment ctx.event_id fulfillment db.ledger.fulfillments)
  found payment not_found
  row ← gets (λ db. find_item ctx.event_id item db.items)
  found row not_found
  modify (λ db. record db {
    allocations =
        record {
          id = id;
          event_id = ctx.event_id;
          fulfillment_id = fulfillment;
          budget_item_id = item;
          value = value;
        }
        ∷ db.allocations;
  })
  log ctx "allocation:create" ("allocation", id) human_typed none
      (some (
        ("fulfillmentId", ref fulfillment)
        ∷ ("budgetItemId", ref item)
        ∷ ("value", text (money_to_string value))
        ∷ []))
  pure (record {
    id = id;
    fulfillment_id = fulfillment;
    budget_item_id = item;
    value = money_to_string value;
  })

unfoldable pub item_views : ℕ → List BudgetItem → List BudgetItemView
unfolding item_view
item_views ev [] = []
item_views ev (i ∷ is) =
    let rest = item_views ev is in if i.event_id == ev then item_view i ∷ rest else rest

-- `listItems`; the rows stand newest first, and the list begins with the oldest.
unfoldable pub list_items : OperationContext → Tx Db (List BudgetItemView)
unfolding item_views
list_items ctx = do
  lift (assert ctx.role budget_read)
  gets (λ db. reverse (item_views ctx.event_id db.items))
