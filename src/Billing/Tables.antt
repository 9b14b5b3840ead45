-- ===== src/Billing/Tables.antt =====
-- The tables of libs/billing (prisma/schema.prisma), as far as limits and credits read them.
use akabbo.Prelude.{
  ℕ, ◌==◌, str_eq, Bool, false, ◌||◌, String, Option, none, some, List, [], ◌∷◌, if◌then◌else◌,
}
use akabbo.Prelude.Int.{ℤ, pos, ◌+ℤ◌}

pub data PlanScope : Type 0 where
  event account : PlanScope

-- `PlanRow` (billing.service.ts and entitlement.service.ts) with `PlanConfig` of
-- plan-catalog.config.ts.
pub record Plan : Type 0 where
  pub id : ℕ
  pub code : String
  pub scope : PlanScope
  pub price_minor : ℕ
  pub max_contributors : Option ℕ
  pub included_sms_credits : ℕ
  pub included_ai_credits : ℕ
  pub features : List String
  pub is_subscription : Bool

pub data GrantStatus : Type 0 where
  trialing active past_due expired cancelled : GrantStatus

pub record Grant : Type 0 where
  pub event_id : Option ℕ
  pub account_id : Option ℕ
  pub plan_id : ℕ
  pub status : GrantStatus
  pub period_start : ℕ
  pub period_end : Option ℕ

pub data InvoiceStatus : Type 0 where
  pending paid failed cancelled : InvoiceStatus

pub record Invoice : Type 0 where
  pub id : ℕ
  pub billing_account_id : ℕ
  pub plan_id : Option ℕ
  pub event_id : Option ℕ
  pub status : InvoiceStatus
  pub reference : String
  pub gateway_transaction_id : Option String

-- `SmsLedgerKind` and `AiLedgerKind` (the last only in the second).
pub data LedgerKind : Type 0 where
  grant reserve commit refund deduct : LedgerKind

-- The idempotency keys that the code writes as texts. Each prefix is a constructor:
-- `commit:k`, `refund:k`, `invoice-sms:id`, `invoice-ai:id`, `trial-sms:id`, `trial-ai:id`,
-- `trial-sms:account:id`, `trial-ai:account:id`, `sms:id` (`message`); `base` is a key that a caller
-- supplies.
pub data Key : Type 0 where
  base : String → Key
  commit_of refund_of : Key → Key
  invoice_sms invoice_ai trial_sms trial_ai account_sms account_ai message : ℕ → Key

unfoldable pub key_eq : Key → Key → Bool
key_eq (base s) (base t) = str_eq s t
key_eq (commit_of a) (commit_of b) = key_eq a b
key_eq (refund_of a) (refund_of b) = key_eq a b
key_eq (invoice_sms m) (invoice_sms n) = m == n
key_eq (invoice_ai m) (invoice_ai n) = m == n
key_eq (trial_sms m) (trial_sms n) = m == n
key_eq (trial_ai m) (trial_ai n) = m == n
key_eq (account_sms m) (account_sms n) = m == n
key_eq (account_ai m) (account_ai n) = m == n
key_eq (message m) (message n) = m == n
key_eq _ _ = false

-- A row of `sms_credit_ledger` or `ai_credit_ledger`.
pub record CreditRow : Type 0 where
  pub event_id : Option ℕ
  pub account_id : Option ℕ
  pub kind : LedgerKind
  pub amount : ℤ
  pub idempotency_key : Key

-- The oldest account of an owner comes first.
pub record Account : Type 0 where
  pub id : ℕ
  pub owner_user_id : ℕ

pub record Event : Type 0 where
  pub id : ℕ
  pub owner_user_id : ℕ

pub record Db : Type 0 where
  pub plans : List Plan
  pub accounts : List Account
  pub events : List Event
  pub grants : List Grant
  pub invoices : List Invoice
  pub sms : List CreditRow
  pub ai : List CreditRow

-- `EntitlementScope`
pub record Scope : Type 0 where
  pub event_id : Option ℕ
  pub account_id : Option ℕ

abbrev pub of_event : ℕ → Scope
of_event id = record { event_id = some id; account_id = none }

-- An optional filter against a nullable column: an absent filter matches nothing here, since the
-- code leaves it out of the `OR`.
abbrev pub matches : Option ℕ → Option ℕ → Bool
matches none _ = false
matches (some a) none = false
matches (some a) (some b) = a == b

-- `_sum: { amount: true }` over the rows of the event or of the account.
unfoldable pub sum_amounts : Option ℕ → Option ℕ → List CreditRow → ℤ
sum_amounts ev acc [] = pos 0
sum_amounts ev acc (r ∷ rs) =
    if matches ev r.event_id || matches acc r.account_id
    then r.amount +ℤ sum_amounts ev acc rs
    else sum_amounts ev acc rs

-- Is the key taken?
unfoldable pub has_key : Key → List CreditRow → Bool
has_key k [] = false
has_key k (r ∷ rs) = key_eq k r.idempotency_key || has_key k rs
