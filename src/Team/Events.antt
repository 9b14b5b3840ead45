-- ===== src/Team/Events.antt =====
-- libs/ledger/src/event.service.ts: the life cycle of an event and the ceiling of active events. The
-- slug's random text is supplied by the caller's `Env`.
pub mod Laws
use akabbo.Prelude.{
  ℕ, suc, ◌==◌, str_eq, ltb, leb, Bool, true, false, ◌&&◌, String, Option, none, some, or_else,
  List, [], ◌∷◌, if◌then◌else◌,
}
use akabbo.Prelude.Int.{ℤ, pos, eqb_ℤ}
use akabbo.Prelude.Result.{event_ceiling, not_found, unique_violation}
use akabbo.Prelude.Tx.{Tx, pure, gets, found, modify, lift, throw_if, ◌>>=◌, ◌>>◌}
use akabbo.Access.Permission.{owner, event_read, event_update, assert}
use akabbo.Access.Gates.{
  OperationContext, EventStatus, draft, active, paused, closed, archived, gates,
}
use akabbo.Billing.Tables.{
  Plan, Grant, GrantStatus, trialing, active as active_grant, Account, Db as BillingDb,
}
use akabbo.Billing.Webhook.{find_plan}
use akabbo.Ledger.Money.{money_to_string}
use akabbo.Ledger.Tables.{Json, null, text, ref}
use akabbo.Team.Tables.{
  Db, Env, Event, Member, joined, find_event, map_event, has_slug, status_text, log_audit,
}

-- `CreateEventInput`
pub record CreateEventInput : Type 0 where
  pub name : String
  pub currency : Option String
  pub target_amount : Option ℤ
  pub event_date : Option ℕ
  pub timezone : Option String
  pub country : Option String

-- `UpdateEventInput`
pub record UpdateEventInput : Type 0 where
  pub name : Option String
  pub target_amount : Option ℤ
  pub event_date : Option ℕ

-- `EventSummary`
pub record EventSummary : Type 0 where
  pub id : ℕ
  pub name : String
  pub slug : String
  pub status : EventStatus
  pub currency : String
  pub target_amount : Option String
  pub event_date : Option ℕ
  pub timezone : String
  pub country : String
  pub owner_user_id : ℕ

abbrev amount_text : Option ℤ → Option String
amount_text none = none
amount_text (some v) = some (money_to_string v)

-- `toSummary`
unfoldable pub to_summary : Event → EventSummary
to_summary e = record {
  id = e.id;
  name = e.name;
  slug = e.slug;
  status = e.status;
  currency = e.currency;
  target_amount = amount_text e.target_amount;
  event_date = e.event_date;
  timezone = e.timezone;
  country = e.country;
  owner_user_id = e.owner_user_id;
}

-- `status: { in: ['DRAFT', 'ACTIVE', 'PAUSED'] }`
abbrev pub counts : EventStatus → Bool
counts draft = true
counts active = true
counts paused = true
counts closed = false
counts archived = false

-- `prisma.event.count` of the owner's events that count.
unfoldable pub count_active : ℕ → List Event → ℕ
count_active user [] = 0
count_active user (e ∷ es) =
    if e.owner_user_id == user && counts e.status
    then suc (count_active user es)
    else count_active user es

-- `account: { ownerUserId: userId }`
unfoldable pub owns_account : ℕ → Option ℕ → List Account → Bool
owns_account user none accounts = false
owns_account user (some id) [] = false
owns_account user (some id) (a ∷ rest) =
    if a.id == id then a.owner_user_id == user else owns_account user (some id) rest

abbrev pub is_live : GrantStatus → Bool
is_live trialing = true
is_live active_grant = true
is_live _ = false

-- The plan of a grant, if it is a live subscription of the user.
unfoldable pub subscription_of : ℕ → BillingDb → Grant → Option Plan
unfolding owns_account
subscription_of user db g =
    if owns_account user g.account_id db.accounts && is_live g.status
    then (elim (find_plan g.plan_id db.plans) [
      | none ↦ none
      | some p ↦ if p.is_subscription then some p else none
    ])
    else none

abbrev pub dearer : Option Plan → Option Plan → Option Plan
dearer none q = q
dearer (some p) none = some p
dearer (some p) (some q) = if ltb p.price_minor q.price_minor then some q else some p

-- The dearest live subscription, the first of those with one price.
unfoldable pub best_subscription : ℕ → BillingDb → List Grant → Option Plan
best_subscription user db [] = none
best_subscription user db (g ∷ gs) =
    dearer (subscription_of user db g) (best_subscription user db gs)

-- `maxActiveEvents`: no ceiling is `none`.
unfoldable pub max_active_events : ℕ → BillingDb → Option ℕ
max_active_events user db = elim (best_subscription user db db.grants) [
  | none ↦ some 1
  | some p ↦ if str_eq p.code "BUSINESS" then none else some 5
]

-- `assertCanCreateEvent`
unfoldable pub assert_can_create_event : ℕ → BillingDb → Tx Db (Unit {0})
assert_can_create_event user billing = elim (max_active_events user billing) [
  | none ↦ pure tt
  | some max ↦ do
    count ← gets (λ db. count_active user db.events)
    throw_if (leb max count) event_ceiling
]

-- The row that `createEvent` inserts.
abbrev pub new_event : ℕ → CreateEventInput → Env → Event
new_event user input env = record {
  id = env.id;
  name = input.name;
  slug = env.slug;
  status = active;
  currency = or_else input.currency "UGX";
  target_amount = input.target_amount;
  event_date = input.event_date;
  timezone = or_else input.timezone "Africa/Kampala";
  country = or_else input.country "UG";
  owner_user_id = user;
}

abbrev pub creator : ℕ → Env → Member
creator user env = record {
  event_id = env.id;
  user_id = user;
  role = owner;
  status = joined;
  invited_by_id = none;
}

-- `x ? moneyToString(x) : null`: an amount of zero is falsy.
abbrev shown_amount : Option ℤ → Json
shown_amount none = null
shown_amount (some v) = if eqb_ℤ v (pos 0) then null else text (money_to_string v)

abbrev shown_date : Option ℕ → Json
shown_date none = null
shown_date (some t) = ref t

-- `createEvent`
unfoldable pub create_event : BillingDb → ℕ → CreateEventInput → Env → Tx Db EventSummary
unfolding assert_can_create_event has_slug to_summary log_audit
create_event billing user input env = do
  assert_can_create_event user billing
  taken ← gets (λ db. has_slug env.slug db.events)
  throw_if taken unique_violation
  modify (λ db. record db { events = new_event user input env ∷ db.events })
  modify (λ db. record db { members = creator user env ∷ db.members })
  log_audit env.id user "event:create" ("event", env.id) none
      (some (
        ("name", text input.name)
        ∷ ("currency", text (or_else input.currency "UGX"))
        ∷ ("targetAmount", shown_amount input.target_amount)
        ∷ []))
  pure (to_summary (new_event user input env))

-- `getEvent`
unfoldable pub get_event : OperationContext → Tx Db EventSummary
unfolding assert to_summary
get_event ctx = do
  lift (assert ctx.role event_read)
  row ← gets (λ db. find_event ctx.event_id db.events)
  e ← found row not_found
  pure (to_summary e)

-- An absent field is left as it is.
abbrev pub given : {A : Type 0} → Option A → Option A → Option A
given none old = old
given (some a) old = some a

abbrev pub updated : UpdateEventInput → Event → Event
updated input e = record e {
  name = or_else input.name e.name;
  target_amount = given input.target_amount e.target_amount;
  event_date = given input.event_date e.event_date;
}

-- `updateEvent`
unfoldable pub update_event : OperationContext → UpdateEventInput → Tx Db EventSummary
unfolding gates map_event to_summary log_audit
update_event ctx input = do
  lift (gates ctx event_update)
  row ← gets (λ db. find_event ctx.event_id db.events)
  before ← found row not_found
  modify (λ db. record db { events = map_event ctx.event_id (updated input) db.events })
  log_audit ctx.event_id ctx.user_id "event:update" ("event", ctx.event_id)
      (some (
        ("name", text before.name)
        ∷ ("targetAmount", shown_amount before.target_amount)
        ∷ ("eventDate", shown_date before.event_date)
        ∷ []))
      (some (
        ("name", text (updated input before).name)
        ∷ ("targetAmount", shown_amount (updated input before).target_amount)
        ∷ ("eventDate", shown_date (updated input before).event_date)
        ∷ []))
  pure (to_summary (updated input before))

-- `setStatus`: only the permission gate stands before it, so a closed event can be reopened.
unfoldable pub set_status : OperationContext → EventStatus → Tx Db EventSummary
unfolding assert map_event to_summary log_audit
set_status ctx status = do
  lift (assert ctx.role event_update)
  row ← gets (λ db. find_event ctx.event_id db.events)
  before ← found row not_found
  modify (λ db. record db {
    events = map_event ctx.event_id (λ e. record e { status = status }) db.events;
  })
  log_audit ctx.event_id ctx.user_id "event:set_status" ("event", ctx.event_id)
      (some (("status", text (status_text before.status)) ∷ []))
      (some (("status", text (status_text status)) ∷ []))
  pure (to_summary (record before { status = status }))
