-- ===== src/Book/Budget/Backed.antt =====
-- Allocations against the lines and the payments that they name.
use akabbo.Prelude.{
  ℕ, ◌≡◌, refl, Bool, true, false, ◌&&◌, String, Option, is_some, List, [], ◌∷◌, arith,
  Option-cases, inl, inr,
}
use akabbo.Prelude.Int.{ℤ}
use akabbo.Prelude.Result.{ok}
use akabbo.Access.Gates.{OperationContext}
use akabbo.Access.Entitlement.{Check}
use akabbo.Ledger.Tables.{Fulfillment}
use akabbo.Ledger.Store.{is_row, find_fulfillment}
use akabbo.Book.Tables.{
  Db, BudgetItem, Allocation, GroupKind, log, find_item, map_item, delete_item,
}
use akabbo.Book.People.{
  CreatePersonInput, PersonView, assert_phone_not_attached_elsewhere, create_person, update_contact,
  link_person_to_user, merge_people,
}
use akabbo.Book.Groups.{GroupView, create_group, assign_person}
use akabbo.Book.Budget.{
  AllocationView, changed, new_item, find_budget, ensure_budget, BudgetItemInput, BudgetItemView,
  ItemChanges, add_item, update_item, count_allocations, remove_item, allocate,
}

-- Every allocation has its line and its payment, in its event.
unfoldable pub backed : List BudgetItem → List Fulfillment → List Allocation → Bool
backed items fs [] = true
backed items fs (a ∷ rest) =
    is_some (find_item a.event_id a.budget_item_id items)
    && is_some (find_fulfillment a.event_id a.fulfillment_id fs)
    && backed items fs rest

abbrev pub IsBacked : Db → Type 0
IsBacked db = backed db.items db.ledger.fulfillments db.allocations ≡ true

-- The tables that this is about are left alone.
abbrev pub Frame : Db → Db → Type 0
Frame db db' =
    (db'.items ≡ db.items)
    × (db'.ledger.fulfillments ≡ db.ledger.fulfillments)
    × (db'.allocations ≡ db.allocations)

module _ (ctx : OperationContext) (db db' : Db) where
  pub merge_people-Frame :
      (s t : ℕ) {r : ℕ × ℕ} → merge_people ctx s t db ≡ ok (r, db') → Frame db db'
  unfolding merge_people log
  merge_people-Frame s t h = (ground arith, ground arith, ground arith)

  pub create_person-Frame :
      (e : Check) (i : CreatePersonInput) (id : ℕ) {r : PersonView}
      → create_person e ctx i id db ≡ ok (r, db')
      → Frame db db'
  unfolding create_person assert_phone_not_attached_elsewhere log
  create_person-Frame e i id h = (ground arith, ground arith, ground arith)

  pub update_contact-Frame :
      (id : ℕ) (phone : String) (c : Bool) {r : PersonView}
      → update_contact ctx id phone c db ≡ ok (r, db')
      → Frame db db'
  unfolding update_contact assert_phone_not_attached_elsewhere log
  update_contact-Frame id phone c h = (ground arith, ground arith, ground arith)

  pub link_person_to_user-Frame :
      (id user : ℕ) {r : PersonView}
      → link_person_to_user ctx id user db ≡ ok (r, db')
      → Frame db db'
  unfolding link_person_to_user log
  link_person_to_user-Frame id user h = (ground arith, ground arith, ground arith)

  pub create_group-Frame :
      (name : String) (kind : Option GroupKind) (id : ℕ) {r : GroupView}
      → create_group ctx name kind id db ≡ ok (r, db')
      → Frame db db'
  unfolding create_group log
  create_group-Frame name kind id h = (ground arith, ground arith, ground arith)

  pub assign_person-Frame :
      (person group : ℕ) (role : Option String) {r : ℕ × ℕ}
      → assign_person ctx person group role db ≡ ok (r, db')
      → Frame db db'
  unfolding assign_person log
  assign_person-Frame person group role h = (ground arith, ground arith, ground arith)

  pub Frame-IsBacked : Frame db db' → IsBacked db → IsBacked db'
  Frame-IsBacked (i, f, a) h = rw (i, f, a) h

-- A new line hides none.
backed-new :
    (i : BudgetItem) (items : List BudgetItem) (fs : List Fulfillment) (as' : List Allocation)
    → backed items fs as' ≡ true
    → backed (i ∷ items) fs as' ≡ true
unfolding backed find_item
backed-new i items fs [] h = refl
backed-new i items fs (a ∷ rest) h = ground (arith, backed-new i items fs rest)

find_item-map_item :
    (ev id ev' id' : ℕ) (g : BudgetItem → BudgetItem) (items : List BudgetItem)
    → ((i : BudgetItem) → ((g i).event_id ≡ i.event_id) × ((g i).id ≡ i.id))
    → is_some (find_item ev' id' (map_item ev id g items)) ≡ is_some (find_item ev' id' items)
unfolding find_item map_item
find_item-map_item ev id ev' id' g [] k = refl
find_item-map_item ev id ev' id' g (i ∷ items) k =
    ground (arith, k i, find_item-map_item ev id ev' id' g items k)

backed-map :
    (ev id : ℕ) (g : BudgetItem → BudgetItem) (items : List BudgetItem) (fs : List Fulfillment)
    (as' : List Allocation)
    → ((i : BudgetItem) → ((g i).event_id ≡ i.event_id) × ((g i).id ≡ i.id))
    → backed items fs as' ≡ true
    → backed (map_item ev id g items) fs as' ≡ true
unfolding backed
backed-map ev id g items fs [] k h = refl
backed-map ev id g items fs (a ∷ rest) k h = ground (
  arith,
  backed-map ev id g items fs rest k,
  find_item-map_item ev id a.event_id a.budget_item_id g items k,
)

find_item-delete_item :
    (ev id ev' id' : ℕ) (items : List BudgetItem)
    → is_row ev id ev' id' ≡ false
    → find_item ev' id' (delete_item ev id items) ≡ find_item ev' id' items
unfolding find_item delete_item
find_item-delete_item ev id ev' id' [] h = refl
find_item-delete_item ev id ev' id' (i ∷ items) h =
    ground (arith, find_item-delete_item ev id ev' id' items h)

-- A line without allocations can go.
backed-delete :
    (ev id : ℕ) (items : List BudgetItem) (fs : List Fulfillment) (as' : List Allocation)
    → count_allocations ev id as' ≡ 0
    → backed items fs as' ≡ true
    → backed (delete_item ev id items) fs as' ≡ true
unfolding backed count_allocations
backed-delete ev id items fs [] none_left h = refl
backed-delete ev id items fs (a ∷ rest) none_left h = ground (
  arith,
  backed-delete ev id items fs rest,
  find_item-delete_item ev id a.event_id a.budget_item_id items,
)

module _ (ctx : OperationContext) (db db' : Db) where
  pub add_item-IsBacked :
      (input : BudgetItemInput) (budget id : ℕ) {r : BudgetItemView}
      → add_item ctx input budget id db ≡ ok (r, db')
      → IsBacked db
      → IsBacked db'
  unfolding add_item ensure_budget log
  add_item-IsBacked input budget id h b =
      elim (Option-cases (find_budget ctx.event_id db.budgets)) [
        | inl fresh ↦ ground (
          arith,
          backed-new (new_item ctx input budget id) db.items db.ledger.fulfillments db.allocations
              b,
        )
        | inr (row, there) ↦ ground (
          arith,
          backed-new (new_item ctx input row.id id) db.items db.ledger.fulfillments db.allocations
              b,
        )
      ]

  pub update_item-IsBacked :
      (id : ℕ) (input : ItemChanges) {r : BudgetItemView}
      → update_item ctx id input db ≡ ok (r, db')
      → IsBacked db
      → IsBacked db'
  unfolding update_item log
  update_item-IsBacked id input h b = ground (
    arith,
    backed-map ctx.event_id id (changed input) db.items db.ledger.fulfillments db.allocations
        (λ i. (refl, refl)) b,
  )

  pub remove_item-IsBacked :
      (id : ℕ) {r : ℕ × String} → remove_item ctx id db ≡ ok (r, db') → IsBacked db → IsBacked db'
  unfolding remove_item log
  remove_item-IsBacked id h b =
      ground
        (arith, backed-delete ctx.event_id id db.items db.ledger.fulfillments db.allocations, b)

  pub allocate-IsBacked :
      (fulfillment item : ℕ) (value : ℤ) (id : ℕ) {r : AllocationView}
      → allocate ctx fulfillment item value id db ≡ ok (r, db')
      → IsBacked db
      → IsBacked db'
  unfolding allocate log backed
  allocate-IsBacked fulfillment item value id h b = ground arith
