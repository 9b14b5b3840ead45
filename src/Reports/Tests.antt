-- ===== src/Reports/Tests.antt =====
-- Runs of reports on small tables.
use akabbo.Prelude.{
  ℕ, ◌≡◌, ◌⊎◌, inr, refl, Bool, true, false, String, Option, none, some, List, [], ◌∷◌, arith, map,
}
use akabbo.Prelude.Int.{pos, ◌<ℤ◌, ◌+ℤ◌, ◌-ℤ◌}
use akabbo.Prelude.Lists.{length}
use akabbo.Ledger.Tables.{Person, Pledge, Fulfillment, human_typed, cash, payment, mtn, reported}
use akabbo.Ledger.Tables as Ledger
use akabbo.Ledger.Status.{pledged}
use akabbo.Comms.Recipients.{committed_by, received_from}
use akabbo.Book.Tables.{Db, BudgetItem}
use akabbo.Reports.Contributors.{PageRow, query_contributors, total_pages}
use akabbo.Reports.Rows.{
  ReportFilters, contributors, amount, SortDirection, ascending, descending, contributor_row,
}
use akabbo.Reports.Contributors.Pages.{first_pages, all_pages}
use akabbo.Reports.Contributors.Order.{Rising, Falling, sort_is_reversed}
use akabbo.Reports.Contributors.Sums.{contributor_row_sums}
use akabbo.Reports.Csv.{row_fields, lines_onto}
use akabbo.Reports.Csv.Reader.{read_rows, read_rows-lines_onto}
use akabbo.Reports.Queries.{Gap, biggest_gap}
use akabbo.Reports.Queries.Widest.{AllWithin, biggest_gap_widest}

abbrev person : ℕ → String → Person
person id name = record {
  id = id;
  event_id = 1;
  display_name = name;
  phone = none;
  user_id = none;
  source = human_typed;
  created_by = 7;
}

abbrev pledge : ℕ → ℕ → ℕ → Ledger.Pledge
pledge id who value = record {
  id = id;
  event_id = 1;
  person_id = who;
  type = cash;
  committed_value = pos value;
  status = pledged;
  target_budget_item_id = none;
  description = none;
  quantity = none;
  unit = none;
  estimated_value = none;
  is_direct = false;
  source = human_typed;
  created_by = 7;
}

abbrev given : ℕ → ℕ → ℕ → Fulfillment
given id to_pledge value = record {
  id = id;
  event_id = 1;
  pledge_id = to_pledge;
  kind = payment;
  value = pos value;
  currency = "UGX";
  method = mtn;
  verification_status = reported;
  note = none;
  occurred_at = id;
  idempotency_key = none;
  source = human_typed;
  created_by = 7;
  created_at = id;
}

abbrev line : ℕ → ℕ → BudgetItem
line id target = record {
  id = id;
  event_id = 1;
  budget_id = 1;
  name = "Tents";
  target_value = pos target;
  is_public = true;
  source = human_typed;
  confidence = none;
  source_document_id = none;
  created_by = 7;
  version = 1;
}

abbrev db0 : Db
db0 = record {
  ledger = record {
    people = person 1 "Sarah" ∷ person 2 "Tom" ∷ [];
    pledges = pledge 2 2 50 ∷ pledge 1 1 100 ∷ [];
    fulfillments = given 2 2 20 ∷ given 1 1 60 ∷ [];
    audit = [];
    outbox = [];
  };
  groups = [];
  members = [];
  files = [];
  budgets = [];
  items = line 1 300 ∷ line 2 500 ∷ [];
  allocations =
      record { id = 1; event_id = 1; fulfillment_id = 1; budget_item_id = 2; value = pos 60 } ∷ [];
}

abbrev filters0 : Option SortDirection → ReportFilters
filters0 direction = record {
  report_type = contributors;
  status = none;
  group_name = none;
  min_amount = 0;
  max_amount = 0;
  search_term = none;
  sort_field = none;
  sort_direction = direction;
  limit = none;
}

abbrev never : String → String → Bool
never a b = false

abbrev five : List ℕ
five = 1 ∷ 2 ∷ 3 ∷ 4 ∷ 5 ∷ []

all_pages_example : first_pages (total_pages (length five) 2) 2 five ≡ five
all_pages_example = all_pages 2 five (omega arith)

abbrev by_amount : ReportFilters
by_amount = record (filters0 none) { sort_field = some amount }

sort_is_reversed_example :
    ((◌≡◌ {A = Option SortDirection} none none)
        ⊎ (◌≡◌ {A = Option SortDirection} none (some descending))
      → Rising (query_contributors never never by_amount none 1 db0))
    × (◌≡◌ {A = Option SortDirection} none (some ascending)
        → Falling (query_contributors never never by_amount none 1 db0))
sort_is_reversed_example = sort_is_reversed never never by_amount none 1 db0 (inr refl)

-- Tom, of whom less was received, comes first though nothing asks for it.
default_order :
    query_contributors never never (filters0 none) none 1 db0
    ≡ contributor_row 1 db0 (person 2 "Tom") ∷ contributor_row 1 db0 (person 1 "Sarah") ∷ []
unfolding query_contributors ◌+ℤ◌
default_order = refl

contributor_row_sums_example :
    ((contributor_row 1 db0 (person 1 "Sarah")).committed ≡ committed_by 1 1 db0.ledger.pledges)
    × ((contributor_row 1 db0 (person 1 "Sarah")).received
        ≡ received_from 1 1 db0.ledger.pledges db0.ledger.fulfillments)
contributor_row_sums_example =
    contributor_row_sums 1 db0 (person 1 "Sarah") (λ own. refl, (λ own. refl, tt))

abbrev quoted : PageRow
quoted = record {
  person_id = 1;
  name = "Ann \"Nan\", of Jinja";
  group = none;
  amount = "60";
  outstanding = some "40";
  status = "partial";
}

read_rows-lines_onto_example :
    read_rows (length (quoted ∷ quoted ∷ [])) (lines_onto (quoted ∷ quoted ∷ []))
    ≡ some (map row_fields (quoted ∷ quoted ∷ []))
read_rows-lines_onto_example = read_rows-lines_onto (quoted ∷ quoted ∷ [])

biggest_gap_widest_example :
    ((g : Gap)
      → biggest_gap 1 db0.allocations db0.items ≡ some g
      → (pos 0 <ℤ g.gap) × AllWithin 1 db0.allocations g.gap db0.items)
    × (biggest_gap 1 db0.allocations db0.items ≡ none
        → AllWithin 1 db0.allocations (pos 0) db0.items)
biggest_gap_widest_example = biggest_gap_widest 1 db0.allocations db0.items

gap_runs :
    biggest_gap 1 db0.allocations db0.items
    ≡ some (record { budget_item_id = 2; name = "Tents"; gap = pos 440 })
unfolding biggest_gap ◌-ℤ◌ akabbo.Transparency.Budget.covered_by ◌+ℤ◌
gap_runs = refl
