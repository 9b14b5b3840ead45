-- ===== src/Transparency/Budget.antt =====
-- libs/transparency/src/public-view.service.ts, `buildBudget`: the budget as the public page shows it.
use akabbo.Prelude.{
  ℕ, ◌==◌, Bool, true, false, not, ◌&&◌, ◌||◌, String, Option, none, some, List, [], ◌∷◌, map,
  if◌then◌else◌,
}
use akabbo.Prelude.Int.{ℤ, pos, ◌+ℤ◌, ltb_ℤ, leb_ℤ}
use akabbo.Ledger.Money.{money_to_string}
use akabbo.Ledger.Status.{outstanding}
use akabbo.Ledger.Store.{is_row}
use akabbo.Book.Tables.{Db, BudgetItem, Allocation}
use akabbo.Transparency.Tables.{BudgetVisibility, partially_public}
use mathlib.Core.List.{reverse}

-- `BudgetItemStatus`
pub data BudgetItemStatus : Type 0 where
  funded partially_funded unfunded : BudgetItemStatus

-- `PublicBudgetItem`
pub record PublicBudgetItem : Type 0 where
  pub name : String
  pub target : String
  pub covered : String
  pub remaining : String
  pub status : BudgetItemStatus

-- `PublicBudget`
pub record PublicBudget : Type 0 where
  pub total : String
  pub covered : String
  pub remaining : String
  pub items : List PublicBudgetItem

-- A row of the query.
pub record BudgetRow : Type 0 where
  pub name : String
  pub target : ℤ
  pub covered : ℤ

-- `COALESCE((SELECT SUM(a.value) FROM allocation a WHERE a.budget_item_id = bi.id), 0)`
unfoldable pub covered_by : ℕ → ℕ → List Allocation → ℤ
covered_by ev item [] = pos 0
covered_by ev item (a ∷ rows) =
    if is_row ev item a.event_id a.budget_item_id
    then a.value +ℤ covered_by ev item rows
    else covered_by ev item rows

-- `WHERE (onlyPublic = false OR bi.is_public = true)`
unfoldable pub budget_rows : ℕ → Bool → List Allocation → List BudgetItem → List BudgetRow
unfolding covered_by
budget_rows ev only_public as' [] = []
budget_rows ev only_public as' (i ∷ is) =
    let rest = budget_rows ev only_public as' is in
    if (i.event_id == ev) && (not only_public || i.is_public)
    then record { name = i.name; target = i.target_value; covered = covered_by ev i.id as' } ∷ rest
    else rest

unfoldable pub item_status : ℤ → ℤ → BudgetItemStatus
item_status target covered =
    if leb_ℤ target covered && ltb_ℤ (pos 0) target
    then funded
    else if ltb_ℤ (pos 0) covered
    then partially_funded
    else unfunded

unfoldable pub item_view : BudgetRow → PublicBudgetItem
unfolding item_status
item_view r = record {
  name = r.name;
  target = money_to_string r.target;
  covered = money_to_string r.covered;
  remaining = money_to_string (outstanding r.target r.covered);
  status = item_status r.target r.covered;
}

-- The two totals that the loop adds up.
unfoldable pub sum_targets : ℤ → List BudgetRow → ℤ
sum_targets total [] = total
sum_targets total (r ∷ rs) = sum_targets (total +ℤ r.target) rs

unfoldable pub sum_covered : ℤ → List BudgetRow → ℤ
sum_covered total [] = total
sum_covered total (r ∷ rs) = sum_covered (total +ℤ r.covered) rs

abbrev is_partial : BudgetVisibility → Bool
is_partial partially_public = true
is_partial _ = false

-- The rows that the page shows, oldest first.
unfoldable pub shown_rows : ℕ → BudgetVisibility → Db → List BudgetRow
unfolding budget_rows
shown_rows ev vis db = reverse (budget_rows ev (is_partial vis) db.allocations db.items)

unfoldable pub summary : List BudgetRow → PublicBudget
unfolding item_view sum_targets sum_covered
summary rows = record {
  total = money_to_string (sum_targets (pos 0) rows);
  covered = money_to_string (sum_covered (pos 0) rows);
  remaining = money_to_string (outstanding (sum_targets (pos 0) rows) (sum_covered (pos 0) rows));
  items = map item_view rows;
}

-- `buildBudget`
unfoldable pub build_budget : ℕ → BudgetVisibility → Db → Option PublicBudget
unfolding shown_rows summary
build_budget ev BudgetVisibility.hidden db = none
build_budget ev BudgetVisibility.public db =
    some (summary (shown_rows ev BudgetVisibility.public db))
build_budget ev partially_public db = some (summary (shown_rows ev partially_public db))
