-- ===== src/Book/Tables.antt =====
-- The tables of people, groups, files and the budget (prisma/schema.prisma), beside the ledger's.
use akabbo.Prelude.{
  ℕ, ◌==◌, Bool, false, not, ◌&&◌, ◌||◌, String, Option, none, some, List, [], ◌∷◌, if◌then◌else◌,
}
use akabbo.Prelude.Int.{ℤ}
use akabbo.Prelude.Tx.{Tx, modify}
use akabbo.Access.Gates.{OperationContext}
use akabbo.Ledger.Tables.{Person, Pledge, Snapshot, ProvenanceSource}
use akabbo.Ledger.Tables as Ledger
use akabbo.Ledger.Store.{is_row}

-- `GroupKind`
pub data GroupKind : Type 0 where
  family_side family friends workmates church school village committee diaspora clan other_kind :
      GroupKind

-- A row of `contributor_group` and one of `person_group`.
pub record Group : Type 0 where
  pub id : ℕ
  pub event_id : ℕ
  pub name : String
  pub kind : GroupKind
  pub created_by : ℕ

pub record PersonGroup : Type 0 where
  pub event_id : ℕ
  pub person_id : ℕ
  pub group_id : ℕ
  pub role : Option String

-- A row of `file_object`, as far as its subject goes.
pub record FileObject : Type 0 where
  pub id : ℕ
  pub event_id : ℕ
  pub person_id : Option ℕ

pub record Budget : Type 0 where
  pub id : ℕ
  pub event_id : ℕ

pub record BudgetItem : Type 0 where
  pub id : ℕ
  pub event_id : ℕ
  pub budget_id : ℕ
  pub name : String
  pub target_value : ℤ
  pub is_public : Bool
  pub source : ProvenanceSource
  pub confidence : Option ℕ
  pub source_document_id : Option ℕ
  pub created_by : ℕ
  pub version : ℕ

pub record Allocation : Type 0 where
  pub id : ℕ
  pub event_id : ℕ
  pub fulfillment_id : ℕ
  pub budget_item_id : ℕ
  pub value : ℤ

pub record Db : Type 0 where
  pub ledger : Ledger.Db
  pub groups : List Group
  pub members : List PersonGroup
  pub files : List FileObject
  pub budgets : List Budget
  pub items : List BudgetItem
  pub allocations : List Allocation

-- `AuditWriter.write`, by its action, resource, source and snapshots.
unfoldable pub log :
    OperationContext
    → String
    → String × ℕ
    → ProvenanceSource
    → Option Snapshot
    → Option Snapshot
    → Tx Db (Unit {0})
log ctx action (type, id) source old new = modify (λ db. record db {
  ledger = record db.ledger {
    audit =
        record {
          event_id = ctx.event_id;
          actor_user_id = ctx.user_id;
          action = action;
          resource_type = type;
          resource_id = id;
          source = source;
          old_value = old;
          new_value = new;
        }
        ∷ db.ledger.audit;
  };
})

-- `tx.person.update({ where: { id }, data })`
unfoldable pub map_person : ℕ → ℕ → (Person → Person) → List Person → List Person
map_person ev id g [] = []
map_person ev id g (p ∷ ps) =
    (if is_row ev id p.event_id p.id then g p else p) ∷ map_person ev id g ps

-- `tx.person.delete({ where: { id } })`
unfoldable pub delete_person : ℕ → ℕ → List Person → List Person
delete_person ev id [] = []
delete_person ev id (p ∷ ps) =
    let rest = delete_person ev id ps in if is_row ev id p.event_id p.id then rest else p ∷ rest

-- Does another person of the event have the account? `@@unique([eventId, userId])`
unfoldable pub user_taken : ℕ → ℕ → ℕ → List Person → Bool
user_taken ev id user [] = false
user_taken ev id user (p ∷ ps) =
    (p.event_id == ev) && not (p.id == id) && elim p.user_id [ none ↦ false | some u ↦ u == user ]
    || user_taken ev id user ps

-- `tx.budgetItem.findFirst({ where: { id } })`
unfoldable pub find_item : ℕ → ℕ → List BudgetItem → Option BudgetItem
find_item ev id [] = none
find_item ev id (i ∷ is) = if is_row ev id i.event_id i.id then some i else find_item ev id is

unfoldable pub map_item : ℕ → ℕ → (BudgetItem → BudgetItem) → List BudgetItem → List BudgetItem
map_item ev id g [] = []
map_item ev id g (i ∷ is) = (if is_row ev id i.event_id i.id then g i else i) ∷ map_item ev id g is

unfoldable pub delete_item : ℕ → ℕ → List BudgetItem → List BudgetItem
delete_item ev id [] = []
delete_item ev id (i ∷ is) =
    let rest = delete_item ev id is in if is_row ev id i.event_id i.id then rest else i ∷ rest
