-- ===== src/Reports/Funders.antt =====
-- libs/ledger/src/ledger-query.service.ts, `getBudgetItemFunders`: who paid for a line of the budget, and
-- who meant to. `same_name` is the database's comparison of two names without regard to case or outer
-- blanks.
use akabbo.Prelude.{
  ℕ, ◌==◌, leb, Bool, false, ◌&&◌, String, Option, none, some, List, [], ◌∷◌, map, if◌then◌else◌,
}
use akabbo.Prelude.Int.{ℤ, pos, ◌+ℤ◌}
use akabbo.Prelude.Tx.{Tx, gets, lift, ◌>>◌}
use akabbo.Access.Permission.{budget_read, assert}
use akabbo.Access.Gates.{OperationContext}
use akabbo.Ledger.Money.{money_to_string}
use akabbo.Ledger.Status.{PledgeStatus}
use akabbo.Ledger.Store.{is_row, find_pledge, find_person, find_fulfillment}
use akabbo.Ledger.Tables.{Pledge, PledgeType, Person, AuditEvent, Snapshot, ProvenanceSource}
use akabbo.Ledger.Tables as Ledger
use akabbo.Book.Tables.{BudgetItem, Allocation, find_item}
use akabbo.Book.Tables as Book
use akabbo.Transparency.Tables.{Db}
use mathlib.Core.List.{reverse}

pub record Funder : Type 0 where
  pub display_name : String
  pub value : ℤ
  pub occurred_at : ℕ

-- `LinkedPledge`
pub record LinkedPledge : Type 0 where
  pub person_name : String
  pub type : PledgeType
  pub description : Option String
  pub committed_value : String
  pub status : PledgeStatus

-- `BudgetItemFunders`; a funder's value is the amount of its text.
pub data BudgetItemFunders : Type 0 where
  missing : BudgetItemFunders
  ambiguous : List String → BudgetItemFunders
  resolved : String → String → String → List Funder → List LinkedPledge → BudgetItemFunders

-- The join of an allocation with its payment, pledge and person.
unfoldable pub funder_of : ℕ → Ledger.Db → Allocation → Option Funder
funder_of ev db a = elim (find_fulfillment ev a.fulfillment_id db.fulfillments) [
  | none ↦ none
  | some f ↦ elim (find_pledge ev f.pledge_id db.pledges) [
    | none ↦ none
    | some p ↦ elim (find_person ev p.person_id db.people) [
      | none ↦ none
      | some person ↦ some (record {
        display_name = person.display_name;
        value = a.value;
        occurred_at = f.occurred_at;
      })
    ]
  ]
]

-- `ORDER BY f.occurred_at ASC`
unfoldable pub insert_funder : Funder → List Funder → List Funder
insert_funder f [] = f ∷ []
insert_funder f (g ∷ gs) =
    let rest = insert_funder f gs in
    if leb f.occurred_at g.occurred_at then f ∷ g ∷ gs else g ∷ rest

unfoldable pub funders : ℕ → ℕ → Ledger.Db → List Allocation → List Funder
unfolding funder_of insert_funder
funders ev item db [] = []
funders ev item db (a ∷ rows) =
    let rest = funders ev item db rows in
    if is_row ev item a.event_id a.budget_item_id
    then elim (funder_of ev db a) [ none ↦ rest | some f ↦ insert_funder f rest ]
    else rest

-- `funders.reduce((sum, f) => sum + f.value, 0n)`
unfoldable pub sum_funders : ℤ → List Funder → ℤ
sum_funders acc [] = acc
sum_funders acc (f ∷ fs) = sum_funders (acc +ℤ f.value) fs

abbrev targets : ℕ → Option ℕ → Bool
targets item none = false
targets item (some i) = i == item

abbrev name_of : Option Person → String
name_of none = ""
name_of (some p) = p.display_name

-- The pledges that are meant for the line.
unfoldable pub linked_pledges : ℕ → ℕ → List Person → List Pledge → List LinkedPledge
linked_pledges ev item people [] = []
linked_pledges ev item people (p ∷ ps) =
    let rest = linked_pledges ev item people ps in
    if (p.event_id == ev) && targets item p.target_budget_item_id
    then record {
      person_name = name_of (find_person ev p.person_id people);
      type = p.type;
      description = p.description;
      committed_value = money_to_string p.committed_value;
      status = p.status;
    }
      ∷ rest
    else rest

-- `fundersForItem`; the pledges are listed oldest first.
unfoldable pub funders_for_item : ℕ → Book.Db → BudgetItem → BudgetItemFunders
unfolding funders sum_funders linked_pledges
funders_for_item ev db i =
    let rows = funders ev i.id db.ledger db.allocations in
    resolved i.name (money_to_string i.target_value) (money_to_string (sum_funders (pos 0) rows))
      rows (reverse (linked_pledges ev i.id db.ledger.people db.ledger.pledges))

unfoldable pub items_named :
    (String → String → Bool) → ℕ → String → List BudgetItem → List BudgetItem
items_named same_name ev text [] = []
items_named same_name ev text (i ∷ is) =
    let rest = items_named same_name ev text is in
    if (i.event_id == ev) && same_name i.name text then i ∷ rest else rest

abbrev item_name : BudgetItem → String
item_name i = i.name

unfoldable pub funders_of_only : ℕ → Book.Db → List BudgetItem → BudgetItemFunders
unfolding funders_for_item
funders_of_only ev db [] = missing
funders_of_only ev db (i ∷ []) = funders_for_item ev db i
funders_of_only ev db (i ∷ (j ∷ is)) = ambiguous (map item_name (i ∷ (j ∷ is)))

-- `getBudgetItemFunders`
unfoldable pub get_budget_item_funders :
    (String → String → Bool) → OperationContext → String → Tx Db BudgetItemFunders
unfolding items_named funders_of_only
get_budget_item_funders same_name ctx text = do
  lift (assert ctx.role budget_read)
  gets (λ db.
      funders_of_only ctx.event_id db.book (items_named same_name ctx.event_id text db.book.items))

-- `getBudgetItemFundersById`
unfoldable pub get_budget_item_funders_by_id : OperationContext → ℕ → Tx Db BudgetItemFunders
unfolding funders_for_item
get_budget_item_funders_by_id ctx id = do
  lift (assert ctx.role budget_read)
  gets (λ db. elim (find_item ctx.event_id id db.book.items) [
    | none ↦ missing
    | some i ↦ funders_for_item ctx.event_id db.book i
  ])
