-- ===== src/Billing/Trials.antt =====
-- libs/billing/src/billing.service.ts: the payer of a user, the free trials, and the start of a
-- purchase. None of it runs in a transaction. The gateway's `createCharge` is a parameter.
pub mod Laws
mod Tests
use akabbo.Prelude.{
  ℕ, ◌==◌, Bool, true, false, not, ◌&&◌, String, Option, none, some, List, [], ◌∷◌, if◌then◌else◌,
}
use akabbo.Prelude.Int.{pos}
use akabbo.Prelude.Result.{ok, bad_request}
use akabbo.Prelude.Io.{Io, pure, gets, found, modify, throw_if, ◌>>=◌, ◌>>◌}
use akabbo.Billing.Tables.{
  Db, Plan, PlanScope, event, account, Grant, trialing, Invoice, pending, Account, Scope, of_event,
  trial_sms, trial_ai, account_sms, account_ai, matches,
}
use akabbo.Billing.Entitlements.{find_account_id}
use akabbo.Billing.Credits.{grant_credits, grant_ai_credits}
use akabbo.Billing.Plans.{find_code}

-- `ensureBillingAccount`; a new account is the youngest.
unfoldable pub add_last : Account → List Account → List Account
add_last a [] = a ∷ []
add_last a (b ∷ rest) = b ∷ add_last a rest

unfoldable pub ensure_billing_account : ℕ → ℕ → Io Db ℕ
unfolding find_account_id add_last
ensure_billing_account user new_id db = elim (find_account_id user db.accounts) [
  | some id ↦ (ok id, db)
  | none ↦ (
    ok new_id,
    record db { accounts = add_last (record { id = new_id; owner_user_id = user }) db.accounts },
  )
]

-- `plan`
unfoldable pub plan : String → Io Db Plan
unfolding find_code
plan c = do row ← gets (λ db. find_code c db.plans); found row bad_request

-- Does the event have a grant, and does the account have one of the plan?
unfoldable pub has_event_grant : ℕ → List Grant → Bool
has_event_grant ev [] = false
has_event_grant ev (g ∷ gs) = if matches (some ev) g.event_id then true else has_event_grant ev gs

unfoldable pub has_account_grant : ℕ → ℕ → List Grant → Bool
has_account_grant acc plan_id [] = false
has_account_grant acc plan_id (g ∷ gs) =
    if matches (some acc) g.account_id && g.plan_id == plan_id
    then true
    else has_account_grant acc plan_id gs

abbrev pub trial_grant : Option ℕ → Option ℕ → Plan → ℕ → Grant
trial_grant ev acc free now = record {
  event_id = ev;
  account_id = acc;
  plan_id = free.id;
  status = trialing;
  period_start = now;
  period_end = none;
}

abbrev pub of_account : ℕ → Scope
of_account acc = record { event_id = none; account_id = some acc }

-- `startFreeTrial`
unfoldable pub start_free_trial : ℕ → ℕ → Io Db (Unit {0})
unfolding plan has_event_grant
start_free_trial ev now = do
  free ← plan "FREE"
  modify (λ db.
      if has_event_grant ev db.grants
      then db
      else record db { grants = trial_grant (some ev) none free now ∷ db.grants })
  modify (grant_credits (of_event ev) (pos free.included_sms_credits) (trial_sms ev))
  modify (grant_ai_credits (of_event ev) (pos free.included_ai_credits) (trial_ai ev))

-- `startAccountTrial`
unfoldable pub start_account_trial : ℕ → ℕ → Io Db (Unit {0})
unfolding plan has_account_grant
start_account_trial acc now = do
  free ← plan "FREE"
  modify (λ db.
      if has_account_grant acc free.id db.grants
      then db
      else record db { grants = trial_grant none (some acc) free now ∷ db.grants })
  modify (grant_credits (of_account acc) (pos free.included_sms_credits) (account_sms acc))
  modify (grant_ai_credits (of_account acc) (pos free.included_ai_credits) (account_ai acc))

-- What a purchase draws: the ids of a new account and of the invoice, and the reference.
pub record Draws : Type 0 where
  pub account_id : ℕ
  pub invoice_id : ℕ
  pub reference : String

-- `charge`: whether the gateway took the charge, which comes after the invoice is written.
unfoldable pub charge :
    (Invoice → Plan → String → Bool) → ℕ → Plan → String → Option ℕ → Draws → Io Db (ℕ × String)
unfolding ensure_billing_account
charge create_charge user bought phone ev draws = do
  payer ← ensure_billing_account user draws.account_id
  let invoice : Invoice = record {
    id = draws.invoice_id;
    billing_account_id = payer;
    plan_id = some bought.id;
    event_id = ev;
    status = pending;
    reference = draws.reference;
    gateway_transaction_id = none;
  }
  modify (λ db. record db { invoices = invoice ∷ db.invoices })
  throw_if (not (create_charge invoice bought phone)) bad_request
  pure (draws.invoice_id, draws.reference)

abbrev is_event_scope : PlanScope → Bool
is_event_scope event = true
is_event_scope account = false

-- `purchaseEventPack`
unfoldable pub purchase_event_pack :
    (Invoice → Plan → String → Bool) → ℕ → ℕ → String → String → Draws → Io Db (ℕ × String)
unfolding plan charge
purchase_event_pack create_charge user ev code phone draws = do
  bought ← plan code
  throw_if (not (is_event_scope bought.scope)) bad_request
  charge create_charge user bought phone (some ev) draws

-- `subscribe`
unfoldable pub subscribe :
    (Invoice → Plan → String → Bool) → ℕ → String → String → Draws → Io Db (ℕ × String)
unfolding plan charge
subscribe create_charge user code phone draws = do
  bought ← plan code
  throw_if (is_event_scope bought.scope) bad_request
  charge create_charge user bought phone none draws
