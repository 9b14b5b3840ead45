-- ===== src/Reports/Report.antt =====
-- libs/ledger/src/report.service.ts, `generateReport`. `encode` is `URLSearchParams.toString`.
use akabbo.Prelude.{
  ℕ, ◌==◌, ltb, leb, Bool, ◌&&◌, String, Option, none, some, List, [], ◌∷◌, map, if◌then◌else◌,
}
use akabbo.Prelude.Int.{ℤ, pos, negsuc, ◌+ℤ◌, ◌-ℤ◌, ltb_ℤ, leb_ℤ}
use akabbo.Prelude.Lists.{length, take}
use akabbo.Prelude.Tx.{Tx, gets, lift, ◌>>◌}
use akabbo.Access.Permission.{event_read, assert}
use akabbo.Access.Gates.{OperationContext}
use akabbo.Ledger.Money.{money_to_string}
use akabbo.Ledger.Store.{is_row, find_person, find_pledge}
use akabbo.Ledger.Tables as Ledger
use akabbo.Ledger.Tables.{Fulfillment}
use akabbo.Book.Tables.{Db, Group, BudgetItem, Allocation}
use akabbo.Reports.Contributors.{
  owed_text, query_contributors, groups_named, only_one, resolve_group_name, group_id,
}
use akabbo.Reports.Rows.{
  ReportType, contributors, pledges, budget, payments, ReportFilters, ContributorRow, row_status,
  sum_received,
}
use akabbo.Reports.Link.{filter_url, label}

pub data PresentationTier : Type 0 where
  inline_chat medium_preview large_report : PresentationTier

-- `ReportPreviewRow`
pub record ReportPreviewRow : Type 0 where
  pub name : String
  pub group : Option String
  pub amount : String
  pub outstanding : Option String
  pub status : String
  pub in_kind : Option (List String)

-- `ReportRef`
pub record ReportRef : Type 0 where
  pub report_type : ReportType
  pub label : String
  pub filter_url : String
  pub total_records : ℕ
  pub total_amount : String

-- `ReportResult`; `ambiguous_group` is the term with the groups that match it.
pub record ReportResult : Type 0 where
  pub tier : PresentationTier
  pub report_ref : ReportRef
  pub preview : List ReportPreviewRow
  pub ambiguous_group : Option (String × List (ℕ × String))

abbrev max_limit : ℕ
max_limit = 10000

-- `Math.min(Math.max(input.limit ?? DEFAULT_LIMIT, 1), MAX_LIMIT)`
unfoldable pub row_limit : Option ℤ → ℕ
row_limit none = max_limit
row_limit (some (negsuc n)) = 1
row_limit (some (pos n)) = if ltb n 1 then 1 else if ltb max_limit n then max_limit else n

unfoldable pub preview_row : ContributorRow → ReportPreviewRow
unfolding owed_text row_status
preview_row r = record {
  name = r.display_name;
  group = r.group_name;
  amount = money_to_string r.received;
  outstanding = owed_text r.committed r.received;
  status = row_status r.committed r.received;
  in_kind = elim r.in_kind [ [] ↦ none | ◌∷◌ k ks ↦ some (k ∷ ks) ];
}

-- `i.allocations.reduce((acc, a) => acc + a.value, 0n)`
unfoldable pub allocated_to : ℕ → ℕ → List Allocation → ℤ → ℤ
allocated_to ev item [] acc = acc
allocated_to ev item (a ∷ rows) acc =
    allocated_to ev item rows
      (if is_row ev item a.event_id a.budget_item_id then acc +ℤ a.value else acc)

unfoldable pub budget_preview : ℕ → List Allocation → BudgetItem → ReportPreviewRow
unfolding allocated_to
budget_preview ev rows i =
    let allocated = allocated_to ev i.id rows (pos 0) in
    record {
      name = i.name;
      group = none;
      amount = money_to_string i.target_value;
      outstanding =
          if ltb_ℤ allocated i.target_value
          then some (money_to_string (i.target_value -ℤ allocated))
          else none;
      status =
          if leb_ℤ i.target_value allocated && ltb_ℤ (pos 0) i.target_value
          then "complete"
          else "partial";
      in_kind = none;
    }

unfoldable pub items_of : ℕ → List BudgetItem → List BudgetItem
items_of ev [] = []
items_of ev (i ∷ is) = let rest = items_of ev is in if i.event_id == ev then i ∷ rest else rest

unfoldable pub sum_targets : ℤ → List BudgetItem → ℤ
sum_targets acc [] = acc
sum_targets acc (i ∷ is) = sum_targets (acc +ℤ i.target_value) is

-- The payments of the event, `orderBy: { occurredAt: 'desc' }`.
unfoldable pub insert_payment : Fulfillment → List Fulfillment → List Fulfillment
insert_payment f [] = f ∷ []
insert_payment f (g ∷ gs) =
    let rest = insert_payment f gs in
    if leb g.occurred_at f.occurred_at then f ∷ g ∷ gs else g ∷ rest

unfoldable pub payments_in : ℕ → List Fulfillment → List Fulfillment
unfolding insert_payment
payments_in ev [] = []
payments_in ev (f ∷ fs) =
    let rest = payments_in ev fs in if f.event_id == ev then insert_payment f rest else rest

unfoldable pub sum_payments : ℤ → List Fulfillment → ℤ
sum_payments acc [] = acc
sum_payments acc (f ∷ fs) = sum_payments (acc +ℤ f.value) fs

-- `f.pledge.person.displayName`; the foreign keys make both rows exist.
unfoldable pub payer : ℕ → Ledger.Db → Fulfillment → String
payer ev db f = elim (find_pledge ev f.pledge_id db.pledges) [
  | none ↦ ""
  | some p ↦ elim (find_person ev p.person_id db.people) [
    | none ↦ ""
    | some person ↦ person.display_name
  ]
]

unfoldable pub payment_preview : ℕ → Ledger.Db → Fulfillment → ReportPreviewRow
unfolding payer
payment_preview ev db f = record {
  name = payer ev db f;
  group = none;
  amount = money_to_string f.value;
  outstanding = none;
  status = "complete";
  in_kind = none;
}

-- The number of records, their sum, and the rows that are shown.
abbrev Found : Type 0
Found = ℕ × ℤ × List ReportPreviewRow

unfoldable pub contributors_found : ℕ → List ContributorRow → Found
unfolding preview_row sum_received take
contributors_found limit rows =
    (length rows, sum_received (pos 0) rows, map preview_row (take limit rows))

unfoldable pub budget_found : ℕ → ℕ → Db → Found
unfolding items_of sum_targets budget_preview take
budget_found limit ev db =
    let items = items_of ev db.items in
    (
      length items,
      sum_targets (pos 0) items,
      map (budget_preview ev db.allocations) (take limit items),
    )

unfoldable pub payments_found : ℕ → ℕ → Ledger.Db → Found
unfolding payments_in sum_payments payment_preview take
payments_found limit ev db =
    let rows = take max_limit (payments_in ev db.fulfillments) in
    (length rows, sum_payments (pos 0) rows, map (payment_preview ev db) (take limit rows))

unfoldable pub tier_of : ℕ → PresentationTier
tier_of records =
    if ltb 30 records then large_report else if ltb 5 records then medium_preview else inline_chat

module _ (encode : List (String × String) → String) (id_text : ℕ → String) where
  module _ (contains : String → String → Bool) (earlier : String → String → Bool) where
    -- The query of a report by its type.
    unfoldable pub find_records : ReportFilters → ReportType → Option Group → ℕ → Db → Found
    unfolding query_contributors contributors_found budget_found payments_found row_limit
    find_records input budget group ev db = budget_found (row_limit input.limit) ev db
    find_records input payments group ev db = payments_found (row_limit input.limit) ev db.ledger
    find_records input contributors group ev db =
        contributors_found (row_limit input.limit)
          (query_contributors contains earlier input (group_id group) ev db)
    find_records input pledges group ev db =
        contributors_found (row_limit input.limit)
          (query_contributors contains earlier input (group_id group) ev db)
    find_records input ReportType.outstanding group ev db =
        contributors_found (row_limit input.limit)
          (query_contributors contains earlier input (group_id group) ev db)

    -- The term and its candidates, where the name of a group does not single one out.
    unfoldable pub ambiguous : Option String → ℕ → List Group → Option (String × List (ℕ × String))
    unfolding groups_named only_one
    ambiguous none ev gs = none
    ambiguous (some String.[]) ev gs = none
    ambiguous (some (String.◌∷◌ c s)) ev gs =
        let matches = groups_named contains earlier (String.◌∷◌ c s) ev gs in
        elim (only_one matches) [
          | some g ↦ none
          | none ↦ some (String.◌∷◌ c s, map (λ g. (g.id, g.name)) matches)
        ]

    -- `generateReport`
    unfoldable pub generate_report : OperationContext → ReportFilters → Tx Db ReportResult
    unfolding resolve_group_name find_records ambiguous tier_of label filter_url
    generate_report ctx input = do
      lift (assert ctx.role event_read)
      gets (λ db.
          let group = resolve_group_name contains earlier input.group_name ctx.event_id db.groups in
          let (records, total, rows) = find_records input input.report_type group ctx.event_id db in
          record {
            tier = tier_of records;
            report_ref = record {
              report_type = input.report_type;
              label = label encode id_text records input group;
              filter_url = filter_url encode id_text ctx.event_id input (group_id group);
              total_records = records;
              total_amount = money_to_string total;
            };
            preview = rows;
            ambiguous_group = ambiguous input.group_name ctx.event_id db.groups;
          })
