-- ===== src/Transparency/Contributors.antt =====
-- libs/transparency/src/public-view.service.ts: the people, their pledges and the payments that the
-- public page lists.
pub mod Private
pub mod Lists
pub mod Top
use akabbo.Prelude.{
  ℕ, ◌==◌, leb, Bool, not, ◌&&◌, String, Option, none, some, List, [], ◌∷◌, ◌++◌, map, or_else,
  if◌then◌else◌,
}
use akabbo.Prelude.Int.{ℤ, pos, ◌+ℤ◌, ltb_ℤ, leb_ℤ}
use akabbo.Prelude.Lists.{take}
use akabbo.Ledger.Money.{money_to_string}
use akabbo.Ledger.Status.{outstanding}
use akabbo.Ledger.Store.{is_row}
use akabbo.Ledger.Tables.{Db, Person, Pledge, PledgeType, Fulfillment, FulfillmentKind}
use akabbo.Comms.Recipients.{is_cancelled, committed_by, received_from, any_id}
use akabbo.Transparency.Tables.{
  ContributorVisibility, names_and_amounts, names_only, aggregate_only,
}
use mathlib.Core.List.{reverse}

-- `ContributorStatus`
pub data ContributorStatus : Type 0 where
  fully_paid partially_paid pledged : ContributorStatus

-- `contributorStatus`
unfoldable pub contributor_status : ℤ → ℤ → ContributorStatus
contributor_status committed received =
    if leb_ℤ committed received
    then fully_paid
    else if ltb_ℤ (pos 0) received
    then partially_paid
    else pledged

-- `PublicPledgePayment`
pub record PublicPledgePayment : Type 0 where
  pub value : String
  pub kind : FulfillmentKind
  pub occurred_at : ℕ

-- `PublicPledgeEntry`
pub record PublicPledgeEntry : Type 0 where
  pub type : PledgeType
  pub committed_value : String
  pub description : Option String
  pub status : ContributorStatus
  pub outstanding : Option String
  pub payments : List PublicPledgePayment

-- What the page adds for a contributor at `NAMES_AND_AMOUNTS`.
pub record Amounts : Type 0 where
  pub committed : String
  pub received : String
  pub outstanding : Option String
  pub status : ContributorStatus
  pub pledges : List PublicPledgeEntry

-- `PublicContributor`
pub record PublicContributor : Type 0 where
  pub display_name : String
  pub amounts : Option Amounts

-- A row of the rollup of people.
pub record PersonRow : Type 0 where
  pub id : ℕ
  pub display_name : String
  pub committed : ℤ
  pub received : ℤ

-- The rollup: each person of the event with what was promised and what was received.
unfoldable pub people_rows : ℕ → Db → List Person → List PersonRow
people_rows ev db [] = []
people_rows ev db (p ∷ ps) =
    let rest = people_rows ev db ps in
    if p.event_id == ev
    then record {
      id = p.id;
      display_name = p.display_name;
      committed = committed_by ev p.id db.pledges;
      received = received_from ev p.id db.pledges db.fulfillments;
    }
      ∷ rest
    else rest

-- `people.filter((r) => r.committed > 0n)`
unfoldable pub committed_rows : List PersonRow → List PersonRow
committed_rows [] = []
committed_rows (r ∷ rs) =
    let rest = committed_rows rs in if ltb_ℤ (pos 0) r.committed then r ∷ rest else rest

-- The stable sort by what was received, from the most.
unfoldable pub insert_row : PersonRow → List PersonRow → List PersonRow
insert_row r [] = r ∷ []
insert_row r (q ∷ qs) =
    let rest = insert_row r qs in if leb_ℤ q.received r.received then r ∷ q ∷ qs else q ∷ rest

unfoldable pub by_received : List PersonRow → List PersonRow
unfolding insert_row
by_received [] = []
by_received (r ∷ rs) = insert_row r (by_received rs)

abbrev pub top_contributors_limit : ℕ
top_contributors_limit = 100

-- The payments of a pledge, `orderBy: { occurredAt: 'asc' }`.
unfoldable pub insert_payment : Fulfillment → List Fulfillment → List Fulfillment
insert_payment f [] = f ∷ []
insert_payment f (g ∷ gs) =
    let rest = insert_payment f gs in
    if leb f.occurred_at g.occurred_at then f ∷ g ∷ gs else g ∷ rest

unfoldable pub payments_of : ℕ → ℕ → List Fulfillment → List Fulfillment
unfolding insert_payment
payments_of ev pledge [] = []
payments_of ev pledge (f ∷ fs) =
    let rest = payments_of ev pledge fs in
    if is_row ev pledge f.event_id f.pledge_id then insert_payment f rest else rest

-- `p.fulfillments.reduce((sum, f) => sum + f.value, 0n)`
unfoldable pub sum_values : ℤ → List Fulfillment → ℤ
sum_values sum [] = sum
sum_values sum (f ∷ fs) = sum_values (sum +ℤ f.value) fs

unfoldable pub payment_view : Fulfillment → PublicPledgePayment
payment_view f = record {
  value = money_to_string f.value;
  kind = f.kind;
  occurred_at = f.occurred_at;
}

-- `...(showOutstanding ? { outstanding: ... } : {})`
unfoldable pub outstanding_text : Bool → ℤ → ℤ → Option String
outstanding_text show committed received =
    if show then some (money_to_string (outstanding committed received)) else none

-- The entry of one pledge with its payments.
unfoldable pub pledge_entry : Bool → Pledge → List Fulfillment → PublicPledgeEntry
unfolding contributor_status sum_values payment_view outstanding_text
pledge_entry show p payments =
    let total = sum_values (pos 0) payments in
    record {
      type = p.type;
      committed_value = money_to_string p.committed_value;
      description = p.description;
      status = contributor_status p.committed_value total;
      outstanding = outstanding_text show p.committed_value total;
      payments = map payment_view payments;
    }

-- `Map<string, PublicPledgeEntry[]>`, with `get`, and the push on the entry of a key.
abbrev pub Breakdown : Type 0
Breakdown = List (ℕ × List PublicPledgeEntry)

unfoldable pub get : ℕ → Breakdown → Option (List PublicPledgeEntry)
get k [] = none
get k ((j, es) ∷ rest) = if j == k then some es else get k rest

unfoldable pub push : ℕ → PublicPledgeEntry → Breakdown → Breakdown
push k e [] = (k, e ∷ []) ∷ []
push k e ((j, es) ∷ rest) = if j == k then (j, es ++ (e ∷ [])) ∷ rest else (j, es) ∷ push k e rest

-- The `for` over the pledges.
unfoldable pub collect : ℕ → Bool → List Fulfillment → List Pledge → Breakdown → Breakdown
unfolding pledge_entry payments_of push
collect ev show fs [] m = m
collect ev show fs (p ∷ ps) m =
    collect ev show fs ps (push p.person_id (pledge_entry show p (payments_of ev p.id fs)) m)

-- `tx.pledge.findMany({ where: { personId: { in }, status: { not: CANCELLED } } })`
unfoldable pub pledges_of : ℕ → List ℕ → List Pledge → List Pledge
pledges_of ev ids [] = []
pledges_of ev ids (p ∷ ps) =
    let rest = pledges_of ev ids ps in
    if (p.event_id == ev) && any_id p.person_id ids && not (is_cancelled p.status)
    then p ∷ rest
    else rest

-- `buildPledgeBreakdown`; the rows of a table stand newest first, the pledges are read oldest first.
unfoldable pub build_pledge_breakdown : ℕ → Bool → List ℕ → Db → Breakdown
unfolding collect pledges_of
build_pledge_breakdown ev show [] db = []
build_pledge_breakdown ev show (id ∷ ids) db =
    collect ev show db.fulfillments (reverse (pledges_of ev (id ∷ ids) db.pledges)) []

unfoldable pub row_id : PersonRow → ℕ
row_id r = r.id

unfoldable pub name_view : PersonRow → PublicContributor
name_view r = record { display_name = r.display_name; amounts = none }

unfoldable pub full_view : Bool → Breakdown → PersonRow → PublicContributor
unfolding contributor_status outstanding_text get
full_view show pledges r = record {
  display_name = r.display_name;
  amounts = some (record {
    committed = money_to_string r.committed;
    received = money_to_string r.received;
    outstanding = outstanding_text show r.committed r.received;
    status = contributor_status r.committed r.received;
    pledges = or_else (get r.id pledges) [];
  });
}

-- The rows that the page may list.
unfoldable pub top_rows : List PersonRow → List PersonRow
unfolding committed_rows by_received take
top_rows people = take top_contributors_limit (by_received (committed_rows people))

-- `buildContributors`
unfoldable pub build_contributors :
    ℕ → List PersonRow → ContributorVisibility → Bool → Db → Option (List PublicContributor)
unfolding top_rows name_view full_view build_pledge_breakdown row_id
build_contributors ev people ContributorVisibility.hidden show db = none
build_contributors ev people aggregate_only show db = none
build_contributors ev people names_only show db = some (map name_view (top_rows people))
build_contributors ev people names_and_amounts show db =
    let rows = top_rows people in
    some (map (full_view show (build_pledge_breakdown ev show (map row_id rows) db)) rows)
