-- ===== src/Transparency/Tests.antt =====
-- Runs of the public page on small tables.
use akabbo.Prelude.{
  ℕ, ◌==◌, ◌≡◌, ◌≤◌, refl, true, false, Option, none, some, [], ◌∷◌, arith, String, or_else,
}
use akabbo.Prelude.Int.{ℤ, pos, ◌+ℤ◌}
use akabbo.Prelude.Lists.{length}
use akabbo.Prelude.Result.{Result, ok, err}
use akabbo.Access.Permission.{owner, public_configure}
use akabbo.Access.Gates.{OperationContext, active}
use akabbo.Ledger.Tables.{
  Person, Pledge, Fulfillment, human_typed, cash, payment, mtn, reported, unknown,
}
use akabbo.Ledger.Store.{find_pledge}
use akabbo.Ledger.Tables as Ledger
use akabbo.Ledger.Status.{pledged, cancelled}
use akabbo.Transparency.Tables.{
  Db, Event, Announcement, PaymentInstruction, names_and_amounts, published, archived,
  AnnouncementStatus, BudgetVisibility,
}
use akabbo.Transparency.Settings.{
  PublicSettingsView, UpdatePublicSettingsInput, update_settings, rotate_access_token,
  clear_access_token, changed, with_token, to_view,
}
use akabbo.Transparency.Settings.Laws.{revoked_everywhere, rotated_everywhere, cleared_opens}
use akabbo.Transparency.Announcements.{archive}
use akabbo.Transparency.Announcements as Announcements
use akabbo.Transparency.Announcements.Laws.{without, create_shows_nothing, archive_withdraws}
use akabbo.Transparency.Links.{uuid, slug, resolve}
use akabbo.Transparency.Contributors.{people_rows, top_rows, get, build_pledge_breakdown}
use akabbo.Transparency.Contributors.Lists.{entries_for, breakdown_is_by_person}
use akabbo.Transparency.Contributors.Top.{top_rows_bounded, Descending, AllCommitted}
use akabbo.Transparency.Page.{project, total_pledged, total_received}
use akabbo.Transparency.Page.Totals.{
  rollup_totals, sum_committed, sum_received, unattributed, ids_of, OwnedOnce, pledge_owner,
  payment_owner, occurrences,
}
use mathlib.Core.List.{reverse}

abbrev person : ℕ → String → Person
person id name = record {
  id = id;
  event_id = 1;
  display_name = name;
  phone = some "0700";
  user_id = none;
  source = human_typed;
  created_by = 7;
}

abbrev pledge : ℕ → ℕ → ℕ → Ledger.Pledge
pledge id who value = record {
  id = id;
  event_id = 1;
  person_id = who;
  type = cash;
  committed_value = pos value;
  status = pledged;
  target_budget_item_id = none;
  description = none;
  quantity = none;
  unit = none;
  estimated_value = none;
  is_direct = false;
  source = human_typed;
  created_by = 7;
}

abbrev given : ℕ → ℕ → ℕ → Fulfillment
given id to_pledge value = record {
  id = id;
  event_id = 1;
  pledge_id = to_pledge;
  kind = payment;
  value = pos value;
  currency = "UGX";
  method = mtn;
  verification_status = reported;
  note = some "private";
  occurred_at = id;
  idempotency_key = none;
  source = human_typed;
  created_by = 7;
  created_at = id;
}

abbrev ledger0 : Ledger.Db
ledger0 = record {
  people = person 2 "Tom" ∷ person 1 "Sarah" ∷ [];
  pledges = pledge 3 2 50 ∷ record (pledge 2 1 70) { status = cancelled } ∷ pledge 1 1 100 ∷ [];
  fulfillments = given 3 3 20 ∷ given 2 2 5 ∷ given 1 1 60 ∷ [];
  audit = [];
  outbox = [];
}

abbrev event1 : Event
event1 = record {
  id = 1;
  slug = "sarahs-wedding-x1";
  name = "Wedding";
  description = none;
  event_date = none;
  status = active;
  currency = "UGX";
  target_amount = some (pos 1000);
  is_public = true;
  public_access_token = none;
  contributor_visibility = names_and_amounts;
  budget_visibility = BudgetVisibility.public;
  show_target = true;
  show_outstanding = true;
  public_revision = 1;
  created_at = 10;
}

abbrev note1 : Announcement
note1 = record {
  id = 5;
  event_id = 1;
  body = "Welcome";
  status = published;
  source = human_typed;
  created_by = 7;
  published_at = some 20;
  created_at = 15;
}

abbrev db0 : Db
db0 = record {
  book = record {
    ledger = ledger0;
    groups = [];
    members = [];
    files = [];
    budgets = [];
    items = [];
    allocations = [];
  };
  events = event1 ∷ record event1 { id = 2; slug = "other" } ∷ [];
  announcements = note1 ∷ [];
  instructions = [];
}

abbrev ctx0 : OperationContext
ctx0 = record { user_id = 7; event_id = 1; role = owner; status = active }

abbrev off : UpdatePublicSettingsInput
off = record {
  is_public = some false;
  contributor_visibility = none;
  budget_visibility = none;
  show_target = none;
  show_outstanding = none;
  description = none;
}

abbrev percent0 : ℤ → ℤ → ℕ
percent0 received target = 0

abbrev db_of {ℓ} : {A : Type ℓ} → Result (A × Db) → Db
db_of (ok (a, db)) = db
db_of (err e) = db0

-- A slug without its suffix opens the event.
prefix_opens : resolve (slug "sarahs") none db0.events ≡ ok event1
unfolding resolve
prefix_opens = refl

revoked_everywhere_example : (2 == ctx0.event_id) ≡ false
unfolding update_settings akabbo.Access.Permission.assert akabbo.Access.Permission.can resolve
revoked_everywhere_example =
    revoked_everywhere ctx0 db0 (db_of (update_settings ctx0 off db0))
      (to_view (changed off event1)) off refl refl (uuid 2) none
      (record event1 { id = 2; slug = "other" }) refl

rotated_everywhere_example : ◌≡◌ {A = Option String} (some "t2") (some "t2")
unfolding rotate_access_token akabbo.Access.Permission.assert akabbo.Access.Permission.can resolve
rotated_everywhere_example =
    rotated_everywhere ctx0 db0 (db_of (rotate_access_token ctx0 "t2" db0))
      (to_view (with_token (some "t2") event1)) "t2" refl (slug "sarahs") (some "t2")
      (with_token (some "t2") event1) refl refl

cleared_opens_example :
    (v : PublicSettingsView) × (db' : Db) × (clear_access_token ctx0 db0 ≡ ok (v, db'))
    × ((token : Option String) → resolve (uuid 1) token db'.events ≡ ok (with_token none event1))
unfolding akabbo.Access.Permission.can akabbo.Transparency.Tables.find_event
cleared_opens_example = cleared_opens ctx0 db0 event1 refl refl refl

abbrev draft6 : Announcement
draft6 = record note1 {
  id = 6;
  body = "Soon";
  status = AnnouncementStatus.draft;
  published_at = none;
  created_at = 30;
}

create_shows_nothing_example :
    project percent0 event1 (db_of (Announcements.create ctx0 "Soon" human_typed 6 30 db0))
    ≡ project percent0 event1 db0
unfolding Announcements.create akabbo.Access.Permission.assert akabbo.Access.Permission.can
create_shows_nothing_example =
    create_shows_nothing percent0 event1 ctx0 "Soon" human_typed 6 30 db0
      (db_of (Announcements.create ctx0 "Soon" human_typed 6 30 db0)) (Announcements.to_view draft6)
      refl

archive_withdraws_example :
    project percent0 event1 (db_of (archive ctx0 5 30 db0))
    ≡ project percent0 event1 (record db0 { announcements = without 1 5 db0.announcements })
unfolding archive akabbo.Access.Permission.assert akabbo.Access.Permission.can
archive_withdraws_example =
    archive_withdraws percent0 event1 ctx0 5 30 db0 (db_of (archive ctx0 5 30 db0))
      (Announcements.to_view (Announcements.moved archived 30 note1)) refl

pledges_owned : OwnedOnce (pledge_owner 1) (ids_of 1 ledger0.people) ledger0.pledges
unfolding pledge_owner ids_of occurrences
pledges_owned = (λ o h. ground arith, (λ o h. ground arith, (λ o h. ground arith, tt)))

payments_owned :
    OwnedOnce (payment_owner 1 ledger0.pledges) (ids_of 1 ledger0.people) ledger0.fulfillments
unfolding payment_owner pledge_owner ids_of occurrences find_pledge
payments_owned = (λ o h. ground arith, (λ o h. ground arith, (λ o h. ground arith, tt)))

rollup_totals_example :
    (total_pledged 1 ledger0.pledges ≡ sum_committed (people_rows 1 ledger0 ledger0.people))
    × (total_received 1 ledger0.fulfillments
        ≡ sum_received (people_rows 1 ledger0 ledger0.people)
          +ℤ unattributed 1 ledger0.pledges ledger0.fulfillments)
rollup_totals_example = rollup_totals 1 ledger0 pledges_owned payments_owned

-- Five were paid on the cancelled pledge.
unattributed_example : unattributed 1 ledger0.pledges ledger0.fulfillments ≡ pos 5
unfolding unattributed akabbo.Ledger.Store.find_pledge pledge_owner ◌+ℤ◌
unattributed_example = refl

breakdown_is_by_person_example :
    or_else (get 1 (build_pledge_breakdown 1 true (2 ∷ 1 ∷ []) ledger0)) []
    ≡ entries_for 1 true ledger0.fulfillments 1 (reverse ledger0.pledges)
breakdown_is_by_person_example = breakdown_is_by_person 1 true (2 ∷ 1 ∷ []) 1 ledger0 refl

top_rows_bounded_example :
    (length (top_rows (people_rows 1 ledger0 ledger0.people)) ≤ 100)
    × Descending (top_rows (people_rows 1 ledger0 ledger0.people))
    × AllCommitted (top_rows (people_rows 1 ledger0 ledger0.people))
top_rows_bounded_example = top_rows_bounded (people_rows 1 ledger0 ledger0.people)
