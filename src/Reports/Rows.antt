-- ===== src/Reports/Rows.antt =====
-- libs/ledger/src/report.service.ts: the rows of a report, with their filters and their order.
-- `earlier` says by `localeCompare` that the first name comes before the second.
use akabbo.Prelude.{
  ℕ, ltb, Bool, true, false, not, ◌&&◌, ◌||◌, String, Option, none, some, List, [], ◌∷◌, ◌++◌,
  if◌then◌else◌,
}
use akabbo.Prelude.Int.{ℤ, pos, ◌+ℤ◌, ltb_ℤ, leb_ℤ, eqb_ℤ}
use akabbo.Ledger.Status.{outstanding as owed_of}
use akabbo.Ledger.Store.{is_row}
use akabbo.Ledger.Tables.{Person, Pledge, PledgeType, cash, Fulfillment}
use akabbo.Comms.Recipients.{counts_for}
use akabbo.Book.Tables.{Db, Group, PersonGroup}
use akabbo.Book.Groups.{find_group}

pub data ReportType : Type 0 where
  contributors pledges outstanding budget payments : ReportType

-- `ContributorStatus` of a filter.
pub data StatusFilter : Type 0 where
  all unpaid partial complete outstanding : StatusFilter

pub data SortField : Type 0 where
  amount name : SortField

pub data SortDirection : Type 0 where
  ascending descending : SortDirection

-- `ReportFilters`; a bound of 0 is no bound, as the code tests it.
pub record ReportFilters : Type 0 where
  pub report_type : ReportType
  pub status : Option StatusFilter
  pub group_name : Option String
  pub min_amount : ℕ
  pub max_amount : ℕ
  pub search_term : Option String
  pub sort_field : Option SortField
  pub sort_direction : Option SortDirection
  pub limit : Option ℤ

-- A row of `queryContributors`.
pub record ContributorRow : Type 0 where
  pub id : ℕ
  pub display_name : String
  pub group_name : Option String
  pub committed : ℤ
  pub received : ℤ
  pub in_kind : List String

-- `for (const f of pl.fulfillments) received += f.value`
unfoldable pub add_payments : ℕ → ℕ → List Fulfillment → ℤ → ℤ
add_payments ev pledge [] acc = acc
add_payments ev pledge (f ∷ fs) acc =
    add_payments ev pledge fs
      (if is_row ev pledge f.event_id f.pledge_id then acc +ℤ f.value else acc)

abbrev pub is_cash : PledgeType → Bool
is_cash cash = true
is_cash _ = false

-- `if (pl.type !== 'CASH' && pl.description) inKind.push(pl.description)`
unfoldable pub add_in_kind : Pledge → List String → List String
add_in_kind p acc = if is_cash p.type then acc else elim p.description [
  | none ↦ acc
  | some String.[] ↦ acc
  | some (String.◌∷◌ c s) ↦ acc ++ (String.◌∷◌ c s ∷ [])
]

-- The `for` over the pledges of a person that are not cancelled.
unfoldable pub add_pledges :
    ℕ → ℕ → List Fulfillment → List Pledge → ℤ × ℤ × List String → ℤ × ℤ × List String
unfolding add_payments add_in_kind
add_pledges ev person fs [] acc = acc
add_pledges ev person fs (p ∷ ps) (committed, received, in_kind) = add_pledges ev person fs ps (
    if counts_for ev person p
    then (committed +ℤ p.committed_value, add_payments ev p.id fs received, add_in_kind p in_kind)
    else (committed, received, in_kind))

-- `p.groups[0]?.group.name`
unfoldable pub first_group : ℕ → ℕ → List Group → List PersonGroup → Option String
first_group ev person gs [] = none
first_group ev person gs (m ∷ ms) =
    let rest = first_group ev person gs ms in
    if is_row ev person m.event_id m.person_id
    then (elim (find_group ev m.group_id gs) [ none ↦ rest | some g ↦ some g.name ])
    else rest

unfoldable pub contributor_row : ℕ → Db → Person → ContributorRow
unfolding add_pledges first_group
contributor_row ev db p =
    let (committed, received, in_kind) =
      add_pledges ev p.id db.ledger.fulfillments db.ledger.pledges (pos 0, pos 0, []) in
    record {
      id = p.id;
      display_name = p.display_name;
      group_name = first_group ev p.id db.groups db.members;
      committed = committed;
      received = received;
      in_kind = in_kind;
    }

-- The filter by status.
unfoldable pub has_status : StatusFilter → ContributorRow → Bool
has_status unpaid r = ltb_ℤ (pos 0) r.committed && eqb_ℤ r.received (pos 0)
has_status partial r = ltb_ℤ (pos 0) r.received && ltb_ℤ r.received r.committed
has_status complete r = ltb_ℤ (pos 0) r.committed && leb_ℤ r.committed r.received
has_status StatusFilter.outstanding r = ltb_ℤ (pos 0) (owed_of r.committed r.received)
has_status all r = ltb_ℤ (pos 0) r.committed || ltb_ℤ (pos 0) r.received

-- The filter by amounts.
unfoldable pub within_amounts : ℕ → ℕ → ContributorRow → Bool
within_amounts low high r =
    not (ltb 0 low && ltb_ℤ r.received (pos low)) && not (ltb 0 high && ltb_ℤ (pos high) r.received)

-- The status that a row shows.
unfoldable pub row_status : ℤ → ℤ → String
row_status committed received =
    if eqb_ℤ committed (pos 0)
    then "no_pledge"
    else if leb_ℤ committed received
    then "complete"
    else if ltb_ℤ (pos 0) received
    then "partial"
    else "unpaid"

-- Does the first row come strictly before the second? The comparator times its direction.
unfoldable pub goes_before :
    (String → String → Bool)
    → Option SortField
    → Option SortDirection
    → ContributorRow
    → ContributorRow
    → Bool
goes_before earlier (some name) (some ascending) a b = earlier a.display_name b.display_name
goes_before earlier (some name) _ a b = earlier b.display_name a.display_name
goes_before earlier _ (some ascending) a b = ltb_ℤ b.received a.received
goes_before earlier _ _ a b = ltb_ℤ a.received b.received

-- `Array.prototype.sort`, which is stable.
unfoldable pub insert :
    (ContributorRow → ContributorRow → Bool)
    → ContributorRow
    → List ContributorRow
    → List ContributorRow
insert before r [] = r ∷ []
insert before r (q ∷ qs) =
    let rest = insert before r qs in if before q r then q ∷ rest else r ∷ q ∷ qs

unfoldable pub sort :
    (ContributorRow → ContributorRow → Bool) → List ContributorRow → List ContributorRow
unfolding insert
sort before [] = []
sort before (r ∷ rs) = insert before r (sort before rs)

-- `r.reduce((acc, r) => acc + r._received, 0n)`
unfoldable pub sum_received : ℤ → List ContributorRow → ℤ
sum_received acc [] = acc
sum_received acc (r ∷ rs) = sum_received (acc +ℤ r.received) rs
