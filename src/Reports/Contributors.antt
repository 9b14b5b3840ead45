-- ===== src/Reports/Contributors.antt =====
-- libs/ledger/src/report.service.ts: the list of contributors, page by page, and the group that is
-- named. `contains` is the database's search without regard to case, `earlier` says by
-- `localeCompare` that the first name comes before the second.
pub mod Pages
pub mod Order
pub mod Sums
use akabbo.Prelude.{
  ℕ, zero, suc, ◌+◌, ◌-◌, ◌*◌, ◌/◌, ◌==◌, ltb, Bool, true, ◌&&◌, String, Option, none, some, List,
  [], ◌∷◌, map, or_else, if◌then◌else◌,
}
use akabbo.Prelude.Int.{ℤ, pos, ltb_ℤ}
use akabbo.Prelude.Lists.{length, take, drop}
use akabbo.Prelude.Tx.{Tx, gets, lift, ◌>>=◌, ◌>>◌}
use akabbo.Access.Permission.{event_read, assert}
use akabbo.Access.Gates.{OperationContext}
use akabbo.Ledger.Money.{money_to_string}
use akabbo.Ledger.Status.{outstanding as owed_of}
use akabbo.Ledger.Tables.{Person}
use akabbo.Book.Tables.{Db, Group}
use akabbo.Book.Groups.{is_member}
use akabbo.Reports.Rows.{
  ReportFilters, ContributorRow, contributor_row, has_status, within_amounts, row_status,
  goes_before, sort, sum_received, outstanding, all, outstanding, amount, name,
}

-- `ContributorView` of a page.
pub record PageRow : Type 0 where
  pub person_id : ℕ
  pub name : String
  pub group : Option String
  pub amount : String
  pub outstanding : Option String
  pub status : String

-- `owed > 0n ? moneyToString(owed) : undefined`
unfoldable pub owed_text : ℤ → ℤ → Option String
owed_text committed received =
    let owed = owed_of committed received in
    if ltb_ℤ (pos 0) owed then some (money_to_string owed) else none

unfoldable pub page_row : ContributorRow → PageRow
unfolding owed_text row_status
page_row r = record {
  person_id = r.id;
  name = r.display_name;
  group = r.group_name;
  amount = money_to_string r.received;
  outstanding = owed_text r.committed r.received;
  status = row_status r.committed r.received;
}

pub record Page : Type 0 where
  pub total_records : ℕ
  pub total_amount : String
  pub page : ℕ
  pub page_size : ℕ
  pub total_pages : ℕ
  pub rows : List PageRow

-- `Math.max(1, Math.ceil(totalRecords / pageSize))`, for a size that is not 0.
unfoldable pub total_pages : ℕ → ℕ → ℕ
total_pages records size =
    let pages = (records + (size - 1)) / size in if ltb pages 1 then 1 else pages

-- `all.slice(start, start + pageSize)`: the start of page 0 is negative, and the slice empty.
unfoldable pub slice_page {ℓ} : {A : Type ℓ} → ℕ → ℕ → List A → List A
unfolding take drop
slice_page zero size xs = []
slice_page (suc before) size xs = take size (drop (before * size) xs)

-- `resolveGroupName`: `none` unless exactly one group matches.
unfoldable pub only_one : List Group → Option Group
only_one [] = none
only_one (g ∷ []) = some g
only_one (g ∷ (h ∷ gs)) = none

abbrev pub group_id : Option Group → Option ℕ
group_id none = none
group_id (some g) = some g.id

-- `search ? { ...filters, searchTerm: search } : filters`
unfoldable pub with_search : ReportFilters → Option String → ReportFilters
with_search filters none = filters
with_search filters (some String.[]) = filters
with_search filters (some (String.◌∷◌ c s)) = record filters { search_term = some (String.◌∷◌ c s) }

module _ (contains : String → String → Bool) (earlier : String → String → Bool) where
  -- `where` of the query: the search term, and the membership of a group.
  unfoldable pub is_wanted : Option String → Option ℕ → Db → ℕ → Person → Bool
  is_wanted term group db ev p =
      (p.event_id == ev)
      && elim term [
        | none ↦ true
        | some String.[] ↦ true
        | some (String.◌∷◌ c s) ↦ contains p.display_name (String.◌∷◌ c s)
      ]
      && elim group [ none ↦ true | some g ↦ is_member p.id g db.members ]

  unfoldable pub wanted_rows : ReportFilters → Option ℕ → Db → ℕ → List Person → List ContributorRow
  unfolding is_wanted contributor_row has_status within_amounts
  wanted_rows filters group db ev [] = []
  wanted_rows filters group db ev (p ∷ ps) =
      let rest = wanted_rows filters group db ev ps in
      let r = contributor_row ev db p in
      if is_wanted filters.search_term group db ev p
        && has_status (or_else filters.status all) r
        && within_amounts filters.min_amount filters.max_amount r
      then r ∷ rest
      else rest

  -- `queryContributors`
  unfoldable pub query_contributors : ReportFilters → Option ℕ → ℕ → Db → List ContributorRow
  unfolding wanted_rows goes_before sort
  query_contributors filters group ev db =
      sort (goes_before earlier filters.sort_field filters.sort_direction)
        (wanted_rows filters group db ev db.ledger.people)

  -- The groups of the event whose name holds the text.
  unfoldable pub groups_named : String → ℕ → List Group → List Group
  groups_named term ev [] = []
  groups_named term ev (g ∷ gs) =
      let rest = groups_named term ev gs in
      if (g.event_id == ev) && contains g.name term then g ∷ rest else rest

  unfoldable pub resolve_group_name : Option String → ℕ → List Group → Option Group
  unfolding groups_named only_one
  resolve_group_name none ev gs = none
  resolve_group_name (some String.[]) ev gs = none
  resolve_group_name (some (String.◌∷◌ c s)) ev gs = only_one (groups_named (String.◌∷◌ c s) ev gs)

  -- `getPaginatedContributors`
  unfoldable pub get_paginated_contributors :
      OperationContext → ReportFilters → ℕ → ℕ → Option String → Tx Db Page
  unfolding resolve_group_name with_search query_contributors sum_received total_pages slice_page
      page_row
  get_paginated_contributors ctx filters page size search = do
    lift (assert ctx.role event_read)
    gets (λ db.
        let group = group_id (resolve_group_name filters.group_name ctx.event_id db.groups) in
        let rows = query_contributors (with_search filters search) group ctx.event_id db in
        record {
          total_records = length rows;
          total_amount = money_to_string (sum_received (pos 0) rows);
          page = page;
          page_size = size;
          total_pages = total_pages (length rows) size;
          rows = map page_row (slice_page page size rows);
        })
