-- ===== src/Reports/Queries.antt =====
-- libs/ledger/src/ledger-query.service.ts: the figures of an event. `percent` is the double that
-- `percentCovered` rounds to.
pub mod Widest
use akabbo.Prelude.{
  ℕ, suc, ◌==◌, str_eq, Bool, not, ◌&&◌, String, Option, none, some, is_some, List, [], ◌∷◌, map,
  if◌then◌else◌,
}
use akabbo.Prelude.Int.{ℤ, pos, ◌+ℤ◌, ◌-ℤ◌, ltb_ℤ}
use akabbo.Prelude.Lists.{length, take}
use akabbo.Prelude.Result.{not_found}
use akabbo.Prelude.Tx.{Tx, pure, gets, lift, found, ◌>>=◌, ◌>>◌}
use akabbo.Access.Permission.{ledger_read_amounts, ledger_read_funding, assert}
use akabbo.Access.Gates.{OperationContext}
use akabbo.Ledger.Money.{money_to_string}
use akabbo.Ledger.Status.{PledgeStatus, outstanding as owed_of}
use akabbo.Ledger.Store.{find_pledge, sum_fulfillments}
use akabbo.Ledger.Tables.{Pledge, AuditEvent}
use akabbo.Ledger.Tables as Ledger
use akabbo.Comms.Recipients.{is_cancelled}
use akabbo.Book.Tables.{BudgetItem, Allocation}
use akabbo.Book.Tables as Book
use akabbo.Transparency.Tables.{Db, find_event}
use akabbo.Transparency.Contributors.{PersonRow, people_rows, committed_rows, by_received}
use akabbo.Transparency.Budget.{covered_by}
use akabbo.Transparency.Page.{total_pledged, total_received, percent_covered}
use mathlib.Core.List.{reverse}

-- `PledgeOutstanding`
pub record PledgeOutstanding : Type 0 where
  pub pledge_id : ℕ
  pub committed_value : String
  pub total_fulfilled : String
  pub outstanding : String
  pub status : PledgeStatus

-- `getPledgeOutstanding`
unfoldable pub get_pledge_outstanding : OperationContext → ℕ → Tx Db PledgeOutstanding
get_pledge_outstanding ctx id = do
  lift (assert ctx.role ledger_read_amounts)
  row ← gets (λ db. find_pledge ctx.event_id id db.book.ledger.pledges)
  pledge ← found row not_found
  total ← gets (λ db. sum_fulfillments ctx.event_id id db.book.ledger.fulfillments)
  pure (record {
    pledge_id = pledge.id;
    committed_value = money_to_string pledge.committed_value;
    total_fulfilled = money_to_string total;
    outstanding = money_to_string (owed_of pledge.committed_value total);
    status = pledge.status;
  })

-- `EventTotals`
pub record EventTotals : Type 0 where
  pub total_committed : String
  pub total_fulfilled : String
  pub total_outstanding : String
  pub pledge_count : ℕ

-- `_count: true`
unfoldable pub pledge_count : ℕ → List Pledge → ℕ
pledge_count ev [] = 0
pledge_count ev (p ∷ ps) =
    let rest = pledge_count ev ps in
    if (p.event_id == ev) && not (is_cancelled p.status) then suc rest else rest

-- `getEventTotals`
unfoldable pub get_event_totals : OperationContext → Tx Db EventTotals
unfolding pledge_count
get_event_totals ctx = do
  lift (assert ctx.role ledger_read_amounts)
  gets (λ db.
      let committed = total_pledged ctx.event_id db.book.ledger.pledges in
      let fulfilled = total_received ctx.event_id db.book.ledger.fulfillments in
      record {
        total_committed = money_to_string committed;
        total_fulfilled = money_to_string fulfilled;
        total_outstanding = money_to_string (owed_of committed fulfilled);
        pledge_count = pledge_count ctx.event_id db.book.ledger.pledges;
      })

-- `TopContributor`
pub record TopContributor : Type 0 where
  pub person_id : ℕ
  pub display_name : String
  pub committed : String
  pub received : String
  pub outstanding : String

unfoldable pub top_contributor : PersonRow → TopContributor
top_contributor r = record {
  person_id = r.id;
  display_name = r.display_name;
  committed = money_to_string r.committed;
  received = money_to_string r.received;
  outstanding = money_to_string (owed_of r.committed r.received);
}

-- `withBalances.filter((r) => r.outstandingValue > 0n).length`
unfoldable pub outstanding_count : List PersonRow → ℕ
outstanding_count [] = 0
outstanding_count (r ∷ rs) =
    let rest = outstanding_count rs in
    if ltb_ℤ (pos 0) (owed_of r.committed r.received) then suc rest else rest

-- `budgetItem.aggregate({ _sum: { targetValue } })` and `allocation.aggregate({ _sum: { value } })`
unfoldable pub budget_total : ℕ → List BudgetItem → ℤ
budget_total ev [] = pos 0
budget_total ev (i ∷ is) =
    if i.event_id == ev then i.target_value +ℤ budget_total ev is else budget_total ev is

unfoldable pub budget_allocated : ℕ → List Allocation → ℤ
budget_allocated ev [] = pos 0
budget_allocated ev (a ∷ rows) =
    if a.event_id == ev then a.value +ℤ budget_allocated ev rows else budget_allocated ev rows

-- A line of the budget with what it lacks.
pub record Gap : Type 0 where
  pub budget_item_id : ℕ
  pub name : String
  pub gap : ℤ

unfoldable pub gap_of : ℕ → List Allocation → BudgetItem → Gap
gap_of ev rows i = record {
  budget_item_id = i.id;
  name = i.name;
  gap = i.target_value -ℤ covered_by ev i.id rows;
}

-- `ORDER BY gap DESC LIMIT 1`
unfoldable pub widest : Gap → Option Gap → Gap
widest g none = g
widest g (some h) = if ltb_ℤ g.gap h.gap then h else g

unfoldable pub widest_gap : ℕ → List Allocation → List BudgetItem → Option Gap
unfolding gap_of widest
widest_gap ev rows [] = none
widest_gap ev rows (i ∷ is) =
    let rest = widest_gap ev rows is in
    if i.event_id == ev then some (widest (gap_of ev rows i) rest) else rest

-- `gaps.length > 0 && gaps[0].gap > 0n ? ... : null`
unfoldable pub biggest_gap : ℕ → List Allocation → List BudgetItem → Option Gap
unfolding widest_gap
biggest_gap ev rows is = elim (widest_gap ev rows is) [
  | none ↦ none
  | some g ↦ if ltb_ℤ (pos 0) g.gap then some g else none
]

-- `EventReport`
pub record EventReport : Type 0 where
  pub target : Option String
  pub percent_covered : Option ℕ
  pub total_committed : String
  pub total_received : String
  pub total_outstanding : String
  pub people_count : ℕ
  pub contributor_count : ℕ
  pub outstanding_contributor_count : ℕ
  pub budget_total : String
  pub budget_allocated : String
  pub budget_unfunded : String
  pub biggest_gap : Option Gap
  pub top_contributors : List TopContributor

-- `prisma.event.findUnique({ select: { targetAmount } })`, then `e?.targetAmount ?? null`
unfoldable pub target_of : ℕ → Db → Option ℤ
target_of ev db = elim (find_event ev db.events) [ none ↦ none | some e ↦ e.target_amount ]

abbrev text_of : Option ℤ → Option String
text_of none = none
text_of (some v) = some (money_to_string v)

-- `getEventReport`
unfoldable pub get_event_report : (ℤ → ℤ → ℕ) → OperationContext → ℕ → Tx Db EventReport
unfolding target_of top_contributor outstanding_count budget_total budget_allocated biggest_gap
get_event_report percent ctx top_n = do
  lift (assert ctx.role ledger_read_amounts)
  gets (λ db.
      let ev = ctx.event_id in
      let target = target_of ev db in
      let committed = total_pledged ev db.book.ledger.pledges in
      let received = total_received ev db.book.ledger.fulfillments in
      let rows = people_rows ev db.book.ledger db.book.ledger.people in
      let planned = budget_total ev db.book.items in
      let allocated = budget_allocated ev db.book.allocations in
      record {
        target = text_of target;
        percent_covered = percent_covered percent received target;
        total_committed = money_to_string committed;
        total_received = money_to_string received;
        total_outstanding = money_to_string (owed_of committed received);
        people_count = length rows;
        contributor_count = length (committed_rows rows);
        outstanding_contributor_count = outstanding_count rows;
        budget_total = money_to_string planned;
        budget_allocated = money_to_string allocated;
        budget_unfunded = money_to_string (owed_of planned allocated);
        biggest_gap = biggest_gap ev db.book.allocations db.book.items;
        top_contributors = map top_contributor (take top_n (by_received rows));
      })

-- `FundingSummary`
pub record FundingSummary : Type 0 where
  pub percent_covered : Option ℕ
  pub has_target : Bool

-- `getFundingSummary`
unfoldable pub get_funding_summary : (ℤ → ℤ → ℕ) → OperationContext → Tx Db FundingSummary
unfolding target_of
get_funding_summary percent ctx = do
  lift (assert ctx.role ledger_read_funding)
  gets (λ db.
      let target = target_of ctx.event_id db in
      record {
        percent_covered =
            percent_covered percent (total_received ctx.event_id db.book.ledger.fulfillments)
              target;
        has_target = is_some target;
      })

-- The rows of a resource in the trail; they stand newest first.
unfoldable pub trail_of : ℕ → String → ℕ → List AuditEvent → List AuditEvent
trail_of ev type id [] = []
trail_of ev type id (a ∷ rows) =
    let rest = trail_of ev type id rows in
    if (a.event_id == ev) && str_eq a.resource_type type && a.resource_id == id
    then a ∷ rest
    else rest

-- `getAuditTrail`, oldest first; the time of a row is left out.
unfoldable pub get_audit_trail : OperationContext → String → ℕ → Tx Db (List AuditEvent)
unfolding trail_of
get_audit_trail ctx type id = do
  lift (assert ctx.role ledger_read_amounts)
  gets (λ db. reverse (trail_of ctx.event_id type id db.book.ledger.audit))
