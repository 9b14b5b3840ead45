-- ===== src/Transparency/Page.antt =====
-- libs/transparency/src/public-view.service.ts, `getPublicEventView`: the projection of an event that
-- anyone with its link is shown. `percent` is the double that
-- `Math.round((Number(received) / Number(target)) * 1000) / 10` rounds to.
pub mod Privacy
pub mod Totals
use akabbo.Prelude.{
  ℕ, ◌==◌, leb, Bool, true, false, not, ◌&&◌, String, Option, none, some, List, [], ◌∷◌, map,
  or_else, if◌then◌else◌,
}
use akabbo.Prelude.Int.{ℤ, pos, ◌+ℤ◌, leb_ℤ}
use akabbo.Prelude.Lists.{length}
use akabbo.Prelude.Result.{Result, err, ok}
use akabbo.Access.Gates.{EventStatus}
use akabbo.Ledger.Money.{money_to_string}
use akabbo.Ledger.Status.{outstanding}
use akabbo.Ledger.Tables.{Pledge, Fulfillment, PaymentMethod}
use akabbo.Comms.Recipients.{is_cancelled}
use akabbo.Transparency.Tables.{
  Db, Event, Announcement, AnnouncementStatus, published, PaymentInstruction, ContributorVisibility,
  BudgetVisibility, names_and_amounts,
}
use akabbo.Transparency.Instructions.{in_order}
use akabbo.Transparency.Links.{Link, resolve}
use akabbo.Transparency.Contributors.{
  PublicContributor, people_rows, committed_rows, build_contributors,
}
use akabbo.Transparency.Activity.{PublicActivityEntry, build_recent_activity}
use akabbo.Transparency.Budget.{PublicBudget, build_budget}

-- `PublicAnnouncement`
pub record PublicAnnouncement : Type 0 where
  pub body : String
  pub published_at : ℕ

-- `PublicPaymentInstruction`
pub record PublicPaymentInstruction : Type 0 where
  pub method : PaymentMethod
  pub label : String
  pub details : String

-- `PublicEventView`; its `visibility` record is the last four fields.
pub record PublicEventView : Type 0 where
  pub slug : String
  pub name : String
  pub description : Option String
  pub event_date : Option ℕ
  pub status : EventStatus
  pub currency : String
  pub target : Option String
  pub total_pledged : String
  pub total_received : String
  pub total_outstanding : Option String
  pub remaining : Option String
  pub percent_covered : Option ℕ
  pub contributor_count : Option ℕ
  pub budget : Option PublicBudget
  pub contributors : Option (List PublicContributor)
  pub recent_activity : Option (List PublicActivityEntry)
  pub announcements : List PublicAnnouncement
  pub payment_instructions : List PublicPaymentInstruction
  pub revision : ℕ
  pub contributor_visibility : ContributorVisibility
  pub budget_visibility : BudgetVisibility
  pub show_target : Bool
  pub show_outstanding : Bool

-- `tx.pledge.aggregate({ where: { status: { not: CANCELLED } }, _sum: { committedValue } })`
unfoldable pub total_pledged : ℕ → List Pledge → ℤ
total_pledged ev [] = pos 0
total_pledged ev (p ∷ ps) =
    if (p.event_id == ev) && not (is_cancelled p.status)
    then p.committed_value +ℤ total_pledged ev ps
    else total_pledged ev ps

-- `tx.fulfillment.aggregate({ _sum: { value } })`
unfoldable pub total_received : ℕ → List Fulfillment → ℤ
total_received ev [] = pos 0
total_received ev (f ∷ fs) =
    if f.event_id == ev then f.value +ℤ total_received ev fs else total_received ev fs

-- `show && value !== null ? moneyToString(value) : null`
unfoldable pub text_if : Bool → Option ℤ → Option String
text_if show none = none
text_if show (some v) = if show then some (money_to_string v) else none

-- `percentCovered`
unfoldable pub percent_covered : (ℤ → ℤ → ℕ) → ℤ → Option ℤ → Option ℕ
percent_covered percent received none = none
percent_covered percent received (some target) =
    if leb_ℤ target (pos 0) then none else some (percent received target)

-- `target === null ? null : outstanding(target, totalReceived)`
unfoldable pub remaining_of : Option ℤ → ℤ → Option ℤ
remaining_of none received = none
remaining_of (some target) received = some (outstanding target received)

abbrev is_hidden : ContributorVisibility → Bool
is_hidden ContributorVisibility.hidden = true
is_hidden _ = false

-- `vis === NAMES_AND_AMOUNTS ? await this.buildRecentActivity(tx) : null`
unfoldable pub activity_if : ContributorVisibility → ℕ → Db → Option (List PublicActivityEntry)
unfolding build_recent_activity
activity_if names_and_amounts ev db = some (build_recent_activity ev db.book.ledger)
activity_if _ ev db = none

abbrev is_published : AnnouncementStatus → Bool
is_published published = true
is_published _ = false

-- `orderBy: { publishedAt: 'desc' }`, where the database puts a missing time first.
abbrev is_later : Announcement → Announcement → Bool
is_later a b = elim a.published_at [
  | none ↦ true
  | some t ↦ elim b.published_at [ none ↦ false | some u ↦ leb u t ]
]

unfoldable pub insert_announcement : Announcement → List Announcement → List Announcement
insert_announcement a [] = a ∷ []
insert_announcement a (b ∷ bs) =
    let rest = insert_announcement a bs in if is_later a b then a ∷ b ∷ bs else b ∷ rest

-- `where: { status: 'PUBLISHED' }`
unfoldable pub published_of : ℕ → List Announcement → List Announcement
unfolding insert_announcement
published_of ev [] = []
published_of ev (a ∷ rows) =
    let rest = published_of ev rows in
    if (a.event_id == ev) && is_published a.status then insert_announcement a rest else rest

unfoldable pub announcement_view : Announcement → PublicAnnouncement
announcement_view a = record { body = a.body; published_at = or_else a.published_at 0 }

unfoldable pub public_announcements : ℕ → List Announcement → List PublicAnnouncement
unfolding announcement_view published_of
public_announcements ev rows = map announcement_view (published_of ev rows)

unfoldable pub instruction_view : PaymentInstruction → PublicPaymentInstruction
instruction_view p = record { method = p.method; label = p.label; details = p.details }

unfoldable pub public_instructions : ℕ → List PaymentInstruction → List PublicPaymentInstruction
unfolding instruction_view in_order
public_instructions ev rows = map instruction_view (in_order ev (λ p. p.is_public) rows)

-- The body of the transaction.
unfoldable pub project : (ℤ → ℤ → ℕ) → Event → Db → PublicEventView
unfolding total_pledged total_received text_if percent_covered remaining_of activity_if
    public_announcements public_instructions people_rows committed_rows build_contributors
    build_budget
project percent e db =
    let ledger = db.book.ledger in
    let pledged = total_pledged e.id ledger.pledges in
    let received = total_received e.id ledger.fulfillments in
    let people = people_rows e.id ledger ledger.people in
    record {
      slug = e.slug;
      name = e.name;
      description = e.description;
      event_date = e.event_date;
      status = e.status;
      currency = e.currency;
      target = text_if e.show_target e.target_amount;
      total_pledged = money_to_string pledged;
      total_received = money_to_string received;
      total_outstanding = text_if e.show_outstanding (some (outstanding pledged received));
      remaining = text_if e.show_target (remaining_of e.target_amount received);
      percent_covered =
          if e.show_target then percent_covered percent received e.target_amount else none;
      contributor_count =
          if is_hidden e.contributor_visibility
          then none
          else some (length (committed_rows people));
      budget = build_budget e.id e.budget_visibility db.book;
      contributors =
          build_contributors e.id people e.contributor_visibility e.show_outstanding ledger;
      recent_activity = activity_if e.contributor_visibility e.id db;
      announcements = public_announcements e.id db.announcements;
      payment_instructions = public_instructions e.id db.instructions;
      revision = e.public_revision;
      contributor_visibility = e.contributor_visibility;
      budget_visibility = e.budget_visibility;
      show_target = e.show_target;
      show_outstanding = e.show_outstanding;
    }

-- `getPublicEventView`
unfoldable pub get_public_event_view :
    (ℤ → ℤ → ℕ) → Link → Option String → Db → Result PublicEventView
unfolding resolve project
get_public_event_view percent link token db = elim (resolve link token db.events) [
  | err x ↦ err x
  | ok e ↦ ok (project percent e db)
]
