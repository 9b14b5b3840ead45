-- ===== src/Team/Tests.antt =====
-- Runs on one event with its owner, a second user and an invitation.
use akabbo.Prelude.{◌+◌, ◌≤◌, ◌≡◌, refl, inr, true, false, none, some, [], ◌∷◌, arith}
use akabbo.Prelude.Result.{Error, Result, ok, err}
use akabbo.Access.Permission.{owner, finance, coordinator, can, event_update}
use akabbo.Access.Gates.{OperationContext, active, closed}
use akabbo.Billing.Tables.{Db as BillingDb}
use akabbo.Team.Tables.{
  Db, Env, Event, User, Member, MembershipStatus, joined, Invitation, pending, find_event,
  find_member, find_token,
}
use akabbo.Team.Members.{resolve_context, add_member}
use akabbo.Team.Members.Laws.{resolve_context-add_member, add_member_keeps}
use akabbo.Team.Invitations.{Accepted, accept_invitation, join}
use akabbo.Team.Invitations.Laws.{
  UsedOnce, accept_invitation_closed, accept_invitation_admits, accept_invitation_again,
}
use akabbo.Team.Invitations.Race.{join_race}
use akabbo.Team.Events.{
  CreateEventInput, EventSummary, count_active, max_active_events, create_event, set_status,
}
use akabbo.Team.Events.Laws.{create_event_ceiling, create_event_owner, set_status_any}

abbrev wedding : Event
wedding = record {
  id = 1;
  name = "Wedding";
  slug = "wedding-1";
  status = active;
  currency = "UGX";
  target_amount = none;
  event_date = none;
  timezone = "Africa/Kampala";
  country = "UG";
  owner_user_id = 7;
}

abbrev link : Invitation
link = record {
  id = 3;
  event_id = 1;
  token = "abc";
  role = finance;
  status = pending;
  invited_phone = none;
  invited_by_id = 7;
  max_uses = 1;
  uses = 0;
  expires_at = 500;
  accepted_by_id = none;
  accepted_at = none;
}

abbrev db0 : Db
db0 = record {
  users = record { id = 7; phone = none } ∷ record { id = 8; phone = none } ∷ [];
  events = wedding ∷ [];
  members =
      record { event_id = 1; user_id = 7; role = owner; status = joined; invited_by_id = none }
      ∷ [];
  invitations = link ∷ [];
  audit = [];
}

abbrev ctx : OperationContext
ctx = record { user_id = 7; event_id = 1; role = owner; status = active }

abbrev after : {A : Type 0} → Result (A × Db) → Db → Db
after (ok (a, db)) old = db
after (err e) old = old

abbrev db_added : Db
db_added = after (add_member ctx 8 coordinator db0) db0

added : add_member ctx 8 coordinator db0 ≡ ok ((8, coordinator), db_added)
unfolding add_member can akabbo.Team.Tables.find_user
added = refl

there : find_event 1 db0.events ≡ some wedding
unfolding find_event
there = refl

resolve_context-add_member_example :
    resolve_context 8 1 db_added
    ≡ some (record { user_id = 8; event_id = 1; role = coordinator; status = active })
resolve_context-add_member_example = resolve_context-add_member ctx 8 coordinator db0 added there

add_member_keeps_example : resolve_context 7 1 db_added ≡ resolve_context 7 1 db0
add_member_keeps_example = add_member_keeps ctx 8 coordinator db0 added 7 1 (inr (ground arith))

the_link : find_token "abc" db0.invitations ≡ some link
unfolding find_token
the_link = refl

accept_invitation_closed_example :
    ((e : Error) × ((accept_invitation 8 "abc" 600 db0).0 ≡ err e))
    × ((accept_invitation 8 "abc" 600 db0).1.members ≡ db0.members)
accept_invitation_closed_example =
    accept_invitation_closed 8 "abc" 600 db0 link the_link (inr (inr (omega arith)))

abbrev db_accepted : Db
db_accepted = (accept_invitation 8 "abc" 100 db0).1

abbrev answer : Accepted
answer = record { event_id = 1; role = finance; already_member = false }

accepts : accept_invitation 8 "abc" 100 db0 ≡ (ok answer, db_accepted)
unfolding accept_invitation find_token find_member
accepts = refl

accept_invitation_admits_example :
    (finance ≡ finance)
    × (0 + 1 ≤ 1)
    × ((m : Member) × (find_member 1 8 db_accepted.members ≡ some m)
        × (m.role ≡ finance)
        × (m.status ≡ joined))
    × ((j : Invitation) × (find_token "abc" db_accepted.invitations ≡ some j)
        × UsedOnce link j
        × (j.accepted_by_id ≡ some 8)
        × (j.accepted_at ≡ some 100))
accept_invitation_admits_example =
    accept_invitation_admits 8 "abc" 100 db0 link {a = answer} the_link accepts refl

accept_invitation_again_example :
    accept_invitation 8 "abc" 200 db_accepted
    ≡ (ok (record answer { already_member = true }), db_accepted)
accept_invitation_again_example =
    accept_invitation_again 8 "abc" 100 200 db0 link {a = answer} the_link (omega arith) accepts

no_eight : find_member 1 8 db0.members ≡ none
unfolding find_member
no_eight = refl

no_nine : find_member 1 9 db0.members ≡ none
unfolding find_member
no_nine = refl

join_race_example :
    (a b : Accepted) × (db1 db2 : Db) × (join 8 link 100 db0 ≡ ok (a, db1))
    × (join 9 link 101 db1 ≡ ok (b, db2))
    × (a.already_member ≡ false)
    × (b.already_member ≡ false)
    × ((j : Invitation) × (find_token "abc" db2.invitations ≡ some j) × UsedOnce link j)
join_race_example =
    join_race 8 9 link "abc" 100 101 db0 (ground arith) (omega arith) the_link no_eight no_nine

abbrev billing : BillingDb
billing = record {
  plans = [];
  accounts = [];
  events = [];
  grants = [];
  invoices = [];
  sms = [];
  ai = [];
}

abbrev party : CreateEventInput
party = record {
  name = "Party";
  currency = none;
  target_amount = none;
  event_date = none;
  timezone = none;
  country = none;
}

abbrev env : Env
env = record { id = 2; slug = "party-2"; token = "def"; now = 100 }

abbrev db_created : Db
db_created = after (create_event billing 8 party env db0) db0

abbrev summary : EventSummary
summary = record {
  id = 2;
  name = "Party";
  slug = "party-2";
  status = active;
  currency = "UGX";
  target_amount = none;
  event_date = none;
  timezone = "Africa/Kampala";
  country = "UG";
  owner_user_id = 8;
}

created : create_event billing 8 party env db0 ≡ ok (summary, db_created)
unfolding create_event max_active_events akabbo.Team.Events.best_subscription count_active
created = refl

one_event : max_active_events 8 billing ≡ some 1
unfolding max_active_events akabbo.Team.Events.best_subscription
one_event = refl

create_event_ceiling_example : count_active 8 db_created.events ≤ 1
create_event_ceiling_example =
    create_event_ceiling billing 8 party env db0 {s = summary} one_event created

create_event_owner_example :
    resolve_context 8 2 db_created
    ≡ some (record { user_id = 8; event_id = 2; role = owner; status = active })
create_event_owner_example = create_event_owner billing 8 party env db0 {s = summary} created

may_update : can owner event_update ≡ true
unfolding can
may_update = refl

set_status_any_example :
    (s : EventSummary) × (db' : Db) × (set_status ctx closed db0 ≡ ok (s, db'))
    × (s.status ≡ closed)
    × (find_event 1 db'.events ≡ some (record wedding { status = closed }))
set_status_any_example = set_status_any ctx closed db0 wedding may_update there
