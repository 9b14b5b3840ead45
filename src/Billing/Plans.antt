-- ===== src/Billing/Plans.antt =====
-- libs/access/src/entitlement.service.ts: `resolve`, the plan that applies to a scope, with its limits
-- and what is used of them.
pub mod Laws
pub mod TopUp
mod Tests
use akabbo.Prelude.{
  ℕ, suc, ◌+◌, ◌-◌, ◌*◌, ◌==◌, str_eq, ltb, leb, Bool, true, false, ◌&&◌, ◌||◌, String, Option,
  none, some, List, [], ◌∷◌, if◌then◌else◌, or_else,
}
use akabbo.Prelude.Int.{ℤ}
use akabbo.Ledger.Tables.{Person}
use akabbo.Team.Tables.{Member, Invitation, MembershipStatus, joined, InvitationStatus, pending}
use akabbo.Billing.Tables.{Db, Plan, Grant, GrantStatus, trialing, active, Scope, matches}
use akabbo.Billing.Entitlements.{account_of, sms_balance, ai_balance, Usage}
use akabbo.Billing.Webhook.{find_plan}
use akabbo.Billing.Catalog.{plan_catalog, free}
use Prim.Native.Char.{Char, code}

-- `features.includes(f)`
abbrev includes : String → List String → Bool
includes f [] = false
includes f (g ∷ gs) = str_eq f g || includes f gs

abbrev is_digit : Char → Bool
is_digit c = leb 48 (code c) && leb (code c) 57

-- The digits to the end of the text, at least one of them after the first call.
unfoldable digits : ℕ → String → Option ℕ
digits acc String.[] = some acc
digits acc (String.◌∷◌ c s) =
    let rest = digits (acc * 10 + (code c - 48)) s in if is_digit c then rest else none

abbrev first_digits : String → Option ℕ
first_digits String.[] = none
first_digits (String.◌∷◌ c s) = digits 0 (String.◌∷◌ c s)

-- The rest of a text after a prefix.
abbrev after : String → String → Option String
after String.[] s = some s
after (String.◌∷◌ c p) String.[] = none
after (String.◌∷◌ c p) (String.◌∷◌ d s) = if code c == code d then after p s else none

-- A feature `seats_N` with its number.
unfoldable pub seats_of : String → Option ℕ
unfolding digits
seats_of f = elim (after "seats_" f) [ none ↦ none | some rest ↦ first_digits rest ]

unfoldable first_seats : List String → Option ℕ
unfolding seats_of
first_seats [] = none
first_seats (f ∷ fs) = elim (seats_of f) [ some n ↦ some n | none ↦ first_seats fs ]

-- `seatsFromFeatures`: no limit is `none`.
unfoldable pub seats_from_features : List String → Option ℕ
unfolding first_seats
seats_from_features fs =
    if includes "unlimited_seats" fs then none else some (or_else (first_seats fs) 1)

abbrev is_joined : MembershipStatus → Bool
is_joined joined = true
is_joined _ = false

abbrev is_open : InvitationStatus → Bool
is_open pending = true
is_open _ = false

unfoldable pub count_members : ℕ → List Member → ℕ
count_members ev [] = 0
count_members ev (m ∷ ms) =
    let n = count_members ev ms in if m.event_id == ev && is_joined m.status then suc n else n

unfoldable pub count_invitations : ℕ → ℕ → List Invitation → ℕ
count_invitations ev now [] = 0
count_invitations ev now (i ∷ is) =
    let n = count_invitations ev now is in
    if i.event_id == ev && is_open i.status && ltb now i.expires_at then suc n else n

-- `countSeats`
unfoldable pub count_seats : ℕ → ℕ → List Member → List Invitation → ℕ
unfolding count_members count_invitations
count_seats ev now members invitations =
    count_members ev members + count_invitations ev now invitations

-- `countContributors`
unfoldable pub count_contributors : ℕ → List Person → ℕ
count_contributors ev [] = 0
count_contributors ev (p ∷ ps) =
    let n = count_contributors ev ps in if p.event_id == ev then suc n else n

abbrev pub is_active_state : GrantStatus → Bool
is_active_state trialing = true
is_active_state active = true
is_active_state _ = false

-- The plan of a grant that the scope sees, if the grant is in force.
unfoldable pub candidate : Option ℕ → Option ℕ → List Plan → Grant → Option (Plan × GrantStatus)
candidate event account plans g =
    if is_active_state g.status && (matches event g.event_id || matches account g.account_id)
    then (elim (find_plan g.plan_id plans) [ none ↦ none | some p ↦ some (p, g.status) ])
    else none

abbrev pub dearest :
    Option (Plan × GrantStatus) → Option (Plan × GrantStatus) → Option (Plan × GrantStatus)
dearest none q = q
dearest (some p) none = some p
dearest (some p) (some q) = if ltb p.0.price_minor q.0.price_minor then some q else some p

-- `activeGrant`: the dearest plan, the first of those with one price.
unfoldable pub active_grant :
    Option ℕ → Option ℕ → List Plan → List Grant → Option (Plan × GrantStatus)
unfolding candidate
active_grant event account plans [] = none
active_grant event account plans (g ∷ gs) =
    dearest (candidate event account plans g) (active_grant event account plans gs)

-- The plan of a code in a list.
unfoldable pub find_code : String → List Plan → Option Plan
find_code c [] = none
find_code c (p ∷ ps) = if str_eq p.code c then some p else find_code c ps

-- `ResolvedEntitlement`
pub record ResolvedEntitlement : Type 0 where
  pub plan_code : String
  pub status : GrantStatus
  pub max_contributors : Option ℕ
  pub current_contributors : ℕ
  pub max_seats : Option ℕ
  pub current_seats : ℕ
  pub features : List String
  pub sms_balance : ℤ
  pub ai_balance : ℤ
  pub max_ai_credits : ℕ

-- What `resolve` reads besides the tables of billing.
pub record Live : Type 0 where
  pub now : ℕ
  pub members : List Member
  pub invitations : List Invitation
  pub people : List Person

-- `plan`: the row of the code, or its entry in the catalog, or the catalog's free plan.
unfoldable pub plan_of_code : String → Db → Plan
unfolding find_code
plan_of_code c db = or_else (find_code c db.plans) (or_else (find_code c plan_catalog) free)

abbrev pub code_of : Option (Plan × GrantStatus) → String
code_of none = "FREE"
code_of (some (p, s)) = p.code

abbrev pub status_of : Option (Plan × GrantStatus) → GrantStatus
status_of none = trialing
status_of (some (p, s)) = s

-- The body of `resolve` for the grant that applies.
unfoldable pub entitlement_of :
    Scope → Live → Db → Option (Plan × GrantStatus) → ResolvedEntitlement
unfolding plan_of_code seats_from_features count_seats count_contributors sms_balance ai_balance
entitlement_of scope live db grant =
    let plan = plan_of_code (code_of grant) db in
    record {
      plan_code = plan.code;
      status = status_of grant;
      max_contributors = plan.max_contributors;
      current_contributors = elim scope.event_id [
        | none ↦ 0
        | some ev ↦ count_contributors ev live.people
      ];
      max_seats = seats_from_features plan.features;
      current_seats = elim scope.event_id [
        | none ↦ 0
        | some ev ↦ count_seats ev live.now live.members live.invitations
      ];
      features = plan.features;
      sms_balance = sms_balance scope db;
      ai_balance = ai_balance scope db;
      max_ai_credits = plan.included_ai_credits;
    }

-- `resolve`
unfoldable pub resolve : Scope → Live → Db → ResolvedEntitlement
unfolding active_grant entitlement_of
resolve scope live db =
    entitlement_of scope live db
      (active_grant scope.event_id (account_of scope db) db.plans db.grants)

-- What `check` is handed of it.
abbrev pub usage_of : Scope → Live → Db → Usage
usage_of scope live db =
    let ent = resolve scope live db in
    record {
      max_contributors = ent.max_contributors;
      contributors = ent.current_contributors;
      max_seats = ent.max_seats;
      seats = ent.current_seats;
    }
