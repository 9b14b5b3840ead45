-- ===== src/Billing/Entitlements.antt =====
-- libs/access/src/entitlement.service.ts: whose account pays for a scope, its balances, and `check`.
use akabbo.Prelude.{
  ℕ, ◌+◌, ◌==◌, ltb, ◌≡◌, refl, Bool, true, false, Option, none, some, List, [], ◌∷◌, if◌then◌else◌,
}
use akabbo.Prelude.Int.{ℤ, pos, ltb_ℤ}
use akabbo.Access.Entitlement.{
  EntitlementAction, add_contributor, add_member, create_pledge, record_fulfillment, send_sms,
  use_ai, Check,
}
use akabbo.Billing.Tables.{Db, Scope, of_event, Account, Event, sum_amounts}

-- `findAccountId`: the oldest account of a user.
unfoldable pub find_account_id : ℕ → List Account → Option ℕ
find_account_id user [] = none
find_account_id user (a ∷ rest) =
    if a.owner_user_id == user then some a.id else find_account_id user rest

unfoldable pub find_owner : ℕ → List Event → Option ℕ
find_owner id [] = none
find_owner id (e ∷ es) = if e.id == id then some e.owner_user_id else find_owner id es

-- `owningAccountId`
unfoldable pub owning_account_id : ℕ → Db → Option ℕ
owning_account_id event db = elim (find_owner event db.events) [
  | none ↦ none
  | some user ↦ find_account_id user db.accounts
]

-- The account of a scope as `resolve` decides it: an event's owner, whatever the caller says.
unfoldable pub account_of : Scope → Db → Option ℕ
account_of scope db = elim scope.event_id [
  | some event ↦ owning_account_id event db
  | none ↦ scope.account_id
]

-- `smsBalance` and `aiBalance` of `resolve`
unfoldable pub sms_balance : Scope → Db → ℤ
sms_balance scope db = sum_amounts scope.event_id (account_of scope db) db.sms

unfoldable pub ai_balance : Scope → Db → ℤ
ai_balance scope db = sum_amounts scope.event_id (account_of scope db) db.ai

-- What `check` reads of `resolve` and of the live counts: the plan's limits, the contributors and
-- the seats in use.
pub record Usage : Type 0 where
  pub max_contributors : Option ℕ
  pub contributors : ℕ
  pub max_seats : Option ℕ
  pub seats : ℕ

pub data Reason : Type 0 where
  ai_credits contributor_limit seat_limit sms_credits : Reason

-- `EntitlementDecision`: allowed, or denied for a reason.
pub data Decision : Type 0 where
  allowed : Decision
  denied : Reason → Decision

-- A limit of `none` is unlimited.
abbrev within : Option ℕ → ℕ → Reason → Decision
within none used reason = allowed
within (some limit) used reason = if ltb limit used then denied reason else allowed

-- `EntitlementService.check`
unfoldable pub check : Scope → EntitlementAction → ℕ → Usage → Db → Decision
unfolding sms_balance ai_balance
check scope create_pledge quantity u db = allowed
check scope record_fulfillment quantity u db = allowed
check scope use_ai quantity u db =
    if ltb_ℤ (ai_balance scope db) (pos quantity) then denied ai_credits else allowed
check scope add_contributor quantity u db =
    within u.max_contributors
      ((elim scope.event_id [ none ↦ 0 | some _ ↦ u.contributors ]) + quantity) contributor_limit
check scope add_member quantity u db =
    within u.max_seats ((elim scope.event_id [ none ↦ 0 | some _ ↦ u.seats ]) + quantity) seat_limit
check scope send_sms quantity u db =
    if ltb_ℤ (sms_balance scope db) (pos quantity) then denied sms_credits else allowed

abbrev pub is_allowed : Decision → Bool
is_allowed allowed = true
is_allowed (denied _) = false

-- The gate that the ledger takes as its argument, filled with the code's own decision.
pub entitlement_check : (ℕ → Usage) → Db → Check
unfolding check
entitlement_check usage db event action =
    is_allowed (check (of_event event) action 1 (usage event) db)

-- Whatever is in the billing tables, the gate never stops a pledge or a payment.
pub ledger_entitled :
    (usage : ℕ → Usage) (db : Db) (event : ℕ)
    → (entitlement_check usage db event create_pledge ≡ true)
      × (entitlement_check usage db event record_fulfillment ≡ true)
unfolding entitlement_check
ledger_entitled usage db event = (refl, refl)

-- A caller's own account never stands in for the account of the event's owner.
pub account_of_event :
    (event : ℕ) (own : Option ℕ) (db : Db)
    → (sms_balance (record { event_id = some event; account_id = own }) db
        ≡ sms_balance (of_event event) db)
      × (ai_balance (record { event_id = some event; account_id = own }) db
          ≡ ai_balance (of_event event) db)
unfolding sms_balance ai_balance account_of
account_of_event event own db = (refl, refl)
