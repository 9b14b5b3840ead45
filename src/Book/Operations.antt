-- ===== src/Book/Operations.antt =====
-- The requests that change an event's book, as one type, and the tables that they lead to.
use akabbo.Prelude.{ℕ, ◌≡◌, Bool, String, Option, arith}
use akabbo.Prelude.Int.{ℤ}
use akabbo.Prelude.Result.{ok}
use akabbo.Prelude.Tx.{Tx, pure, ◌>>=◌, >>=-eq-ok}
use akabbo.Access.Gates.{OperationContext}
use akabbo.Access.Entitlement.{Check}
use akabbo.Book.Tables.{Db, GroupKind}
use akabbo.Book.People
use akabbo.Book.People.{CreatePersonInput}
use akabbo.Book.Groups
use akabbo.Book.Budget
use akabbo.Book.Budget.{BudgetItemInput, ItemChanges}
use akabbo.Book.Budget.Backed.{
  IsBacked, Frame-IsBacked, merge_people-Frame, create_person-Frame, update_contact-Frame,
  link_person_to_user-Frame, create_group-Frame, assign_person-Frame, add_item-IsBacked,
  update_item-IsBacked, remove_item-IsBacked, allocate-IsBacked,
}

pub data Operation : Type 0 where
  create_person : CreatePersonInput → Operation
  update_contact : ℕ → String → Bool → Operation
  link_person_to_user : ℕ → ℕ → Operation
  merge_people : ℕ → ℕ → Operation
  create_group : String → Option GroupKind → Operation
  assign_person : ℕ → ℕ → Option String → Operation
  add_item : BudgetItemInput → Operation
  update_item : ℕ → ItemChanges → Operation
  remove_item : ℕ → Operation
  allocate : ℕ → ℕ → ℤ → Operation

abbrev discard : {A : Type 0} → Tx Db A → Tx Db (Unit {0})
discard m = m >>= λ _. pure tt

-- `new_budget` and `id` are the ids that the database draws.
unfoldable pub apply : Check → OperationContext → Operation → ℕ → ℕ → Tx Db (Unit {0})
apply c ctx (create_person input) new_budget id = discard (People.create_person c ctx input id)
apply c ctx (update_contact person phone shared) new_budget id =
    discard (People.update_contact ctx person phone shared)
apply c ctx (link_person_to_user person user) new_budget id =
    discard (People.link_person_to_user ctx person user)
apply c ctx (merge_people source target) new_budget id =
    discard (People.merge_people ctx source target)
apply c ctx (create_group name kind) new_budget id = discard (Groups.create_group ctx name kind id)
apply c ctx (assign_person person group role) new_budget id =
    discard (Groups.assign_person ctx person group role)
apply c ctx (add_item input) new_budget id = discard (Budget.add_item ctx input new_budget id)
apply c ctx (update_item item input) new_budget id = discard (Budget.update_item ctx item input)
apply c ctx (remove_item item) new_budget id = discard (Budget.remove_item ctx item)
apply c ctx (allocate fulfillment item value) new_budget id =
    discard (Budget.allocate ctx fulfillment item value id)

-- One request that went through.
pub data Step (c : Check) : Db → Db → Type 0 where
  step :
      (ctx : OperationContext) (op : Operation) (new_budget id : ℕ) (db db' : Db)
      → apply c ctx op new_budget id db ≡ ok (tt, db')
      → Step c db db'

-- Requests of any users, in any events, in any order. A request that throws is rolled back.
pub data Reach (c : Check) (db : Db) : Db → Type 0 where
  here : Reach c db db
  next : {db1 db2 : Db} → Reach c db db1 → Step c db1 db2 → Reach c db db2

-- A call whose result is dropped returned before it was dropped.
undiscard :
    {A : Type 0} (m : Tx Db A) (db db' : Db)
    → discard m db ≡ ok (tt, db')
    → (a : A) × (m db ≡ ok (a, db'))
undiscard m db db' h =
    let (a, s, e, done) = >>=-eq-ok m (λ _. pure tt) db h in (a, ground (arith, e, done))

module _ (c : Check) (ctx : OperationContext) (new_budget id : ℕ) (db db' : Db) where
  pub apply-IsBacked :
      (op : Operation) → apply c ctx op new_budget id db ≡ ok (tt, db') → IsBacked db → IsBacked db'
  unfolding apply
  apply-IsBacked (create_person input) h =
      let (_, e) = undiscard (People.create_person c ctx input id) db db' h in
      Frame-IsBacked ctx db db' (create_person-Frame ctx db db' c input id e)
  apply-IsBacked (update_contact person phone shared) h =
      let (_, e) = undiscard (People.update_contact ctx person phone shared) db db' h in
      Frame-IsBacked ctx db db' (update_contact-Frame ctx db db' person phone shared e)
  apply-IsBacked (link_person_to_user person user) h =
      let (_, e) = undiscard (People.link_person_to_user ctx person user) db db' h in
      Frame-IsBacked ctx db db' (link_person_to_user-Frame ctx db db' person user e)
  apply-IsBacked (merge_people source target) h =
      let (_, e) = undiscard (People.merge_people ctx source target) db db' h in
      Frame-IsBacked ctx db db' (merge_people-Frame ctx db db' source target e)
  apply-IsBacked (create_group name kind) h =
      let (_, e) = undiscard (Groups.create_group ctx name kind id) db db' h in
      Frame-IsBacked ctx db db' (create_group-Frame ctx db db' name kind id e)
  apply-IsBacked (assign_person person group role) h =
      let (_, e) = undiscard (Groups.assign_person ctx person group role) db db' h in
      Frame-IsBacked ctx db db' (assign_person-Frame ctx db db' person group role e)
  apply-IsBacked (add_item input) h =
      let (_, e) = undiscard (Budget.add_item ctx input new_budget id) db db' h in
      add_item-IsBacked ctx db db' input new_budget id e
  apply-IsBacked (update_item item input) h =
      let (_, e) = undiscard (Budget.update_item ctx item input) db db' h in
      update_item-IsBacked ctx db db' item input e
  apply-IsBacked (remove_item item) h =
      let (_, e) = undiscard (Budget.remove_item ctx item) db db' h in
      remove_item-IsBacked ctx db db' item e
  apply-IsBacked (allocate fulfillment item value) h =
      let (_, e) = undiscard (Budget.allocate ctx fulfillment item value id) db db' h in
      allocate-IsBacked ctx db db' fulfillment item value id e

-- If every allocation of the tables has its budget line and its payment in its event, then so it is
-- after any sequence of requests on people, groups, budget lines and allocations that went through.
pub Reach-IsBacked : (c : Check) (db db' : Db) → Reach c db db' → IsBacked db → IsBacked db'
Reach-IsBacked c db _ here b = b
Reach-IsBacked c db _ (next {db1} {db2} r (step ctx op new_budget id _ _ h)) b =
    apply-IsBacked c ctx new_budget id db1 db2 op h (Reach-IsBacked c db db1 r b)
