-- ===== src/Billing/Tests.antt =====
-- Runs of the billing tables: one owner with two events, an unpaid invoice, and some credits.
use akabbo.Prelude.{◌≡◌, refl, true, false, none, some, [], ◌∷◌}
use akabbo.Prelude.Int.{pos, ◌+ℤ◌, ◌-ℤ◌}
use akabbo.Prelude.Result.{Result, ok, err}
use akabbo.Billing.Tables.{
  Db, Scope, of_event, Plan, PlanScope, event, Invoice, InvoiceStatus, pending, paid, LedgerKind,
  grant, refund, Key, base, invoice_sms, CreditRow, sum_amounts, has_key,
}
use akabbo.Billing.Entitlements.{sms_balance, ai_balance, owning_account_id}
use akabbo.Billing.Credits.{
  reserve, append, append_ai, commit, refund as refund_credits, reserve_ai_credit,
}
use akabbo.Billing.Credits.Laws.{
  Reserves, reserve_never_overdraws, reserve_ai_credit_never_overdraws,
}
use akabbo.Billing.Credits.Settle.{append_once, reserve_settles}
use akabbo.Billing.Credits.Siblings.{reserve_charges_siblings}
use akabbo.Billing.Webhook.{PaymentWebhookEvent, find_invoice, find_plan, apply_payment_webhook}
use akabbo.Billing.Webhook.Outcomes.{
  apply_payment_webhook_once, apply_payment_webhook_grants, apply_payment_webhook_failed,
}

abbrev pack : Plan
pack = record {
  id = 3;
  code = "EVENT";
  scope = event;
  price_minor = 50000;
  max_contributors = none;
  included_sms_credits = 200;
  included_ai_credits = 50;
  features = [];
  is_subscription = false;
}

abbrev invoice : Invoice
invoice = record {
  id = 4;
  billing_account_id = 9;
  plan_id = some 3;
  event_id = some 1;
  status = pending;
  reference = "ref-4";
  gateway_transaction_id = none;
}

abbrev credits : CreditRow
credits = record {
  event_id = some 1;
  account_id = none;
  kind = grant;
  amount = pos 10;
  idempotency_key = base "g";
}

abbrev db0 : Db
db0 = record {
  plans = pack ∷ [];
  accounts = record { id = 9; owner_user_id = 7 } ∷ [];
  events = record { id = 1; owner_user_id = 7 } ∷ record { id = 2; owner_user_id = 7 } ∷ [];
  grants = [];
  invoices = invoice ∷ [];
  sms = credits ∷ [];
  ai = credits ∷ [];
}

abbrev after : {A : Type 0} → Result (A × Db) → Db → Db
after (ok (a, db)) old = db
after (err e) old = old

abbrev success : PaymentWebhookEvent
success = record { gateway_transaction_id = "t1"; reference = "ref-4"; succeeded = true }

abbrev failure : PaymentWebhookEvent
failure = record { gateway_transaction_id = "t2"; reference = "ref-4"; succeeded = false }

abbrev db1 : Db
db1 = after (apply_payment_webhook success 100 db0) db0

applied : apply_payment_webhook success 100 db0 ≡ ok (true, db1)
unfolding apply_payment_webhook find_invoice akabbo.Billing.Webhook.plan_of find_plan
    akabbo.Billing.Webhook.settle_success akabbo.Billing.Webhook.gateway_taken
    akabbo.Billing.Webhook.credit_sms has_key akabbo.Billing.Tables.key_eq
    akabbo.Billing.Webhook.credit_ai
applied = refl

apply_payment_webhook_once_example : apply_payment_webhook failure 200 db1 ≡ ok (false, db1)
apply_payment_webhook_once_example =
    apply_payment_webhook_once success failure 100 200 db0 applied refl

there : find_invoice "ref-4" db0.invoices ≡ some invoice
unfolding find_invoice
there = refl

listed : find_plan 3 db0.plans ≡ some pack
unfolding find_plan
listed = refl

apply_payment_webhook_grants_example :
    (find_invoice "ref-4" db1.invoices
      ≡ some (record invoice { status = paid; gateway_transaction_id = some "t1" }))
    × (sum_amounts (some 1) none db1.sms ≡ pos 200 +ℤ sum_amounts (some 1) none db0.sms)
    × (sum_amounts (some 1) none db1.ai ≡ pos 50 +ℤ sum_amounts (some 1) none db0.ai)
apply_payment_webhook_grants_example =
    apply_payment_webhook_grants success 100 db0 invoice pack 3 1 applied there refl listed refl

abbrev db_failed : Db
db_failed = after (apply_payment_webhook failure 100 db0) db0

not_applied : apply_payment_webhook failure 100 db0 ≡ ok (false, db_failed)
unfolding apply_payment_webhook find_invoice akabbo.Billing.Webhook.gateway_taken
not_applied = refl

apply_payment_webhook_failed_example :
    (false ≡ false)
    × (db_failed.grants ≡ db0.grants)
    × (db_failed.sms ≡ db0.sms)
    × (db_failed.ai ≡ db0.ai)
apply_payment_webhook_failed_example = apply_payment_webhook_failed failure 100 db0 refl not_applied

new_key : has_key (base "r") db0.sms ≡ false
unfolding has_key akabbo.Billing.Tables.key_eq
new_key = refl

new_ai_key : has_key (base "r") db0.ai ≡ false
unfolding has_key akabbo.Billing.Tables.key_eq
new_ai_key = refl

new_commit : has_key (Key.commit_of (base "r")) db0.sms ≡ false
unfolding has_key akabbo.Billing.Tables.key_eq
new_commit = refl

new_refund : has_key (Key.refund_of (base "r")) db0.sms ≡ false
unfolding has_key akabbo.Billing.Tables.key_eq
new_refund = refl

granted : (reserve (of_event 1) 4 (base "r") db0).1.granted ≡ true
unfolding reserve sms_balance sum_amounts ◌+ℤ◌
granted = refl

reserve_never_overdraws_example :
    Reserves (sms_balance (of_event 1)) 4 db0 (reserve (of_event 1) 4 (base "r") db0)
reserve_never_overdraws_example = reserve_never_overdraws 1 db0 4 (base "r") new_key

reserve_ai_credit_never_overdraws_example :
    Reserves (ai_balance (of_event 1)) 4 db0 (reserve_ai_credit (of_event 1) (base "r") 4 db0)
reserve_ai_credit_never_overdraws_example =
    reserve_ai_credit_never_overdraws 1 db0 4 (base "r") new_ai_key

append_once_example :
    (append
        (of_event 2)
        refund
        (pos 5)
        (base "r")
        (append (of_event 1) grant (pos 3) (base "r") db0)
      ≡ append (of_event 1) grant (pos 3) (base "r") db0)
    × (append_ai
          (of_event 2)
          refund
          (pos 5)
          (base "r")
          (append_ai (of_event 1) grant (pos 3) (base "r") db0)
        ≡ append_ai (of_event 1) grant (pos 3) (base "r") db0)
append_once_example =
    append_once (of_event 1) (of_event 2) grant refund (pos 3) (pos 5) (base "r") db0

reserve_settles_example :
    (sms_balance
        (of_event 1)
        (commit (of_event 1) (base "r") (reserve (of_event 1) 4 (base "r") db0).0)
      ≡ sms_balance (of_event 1) db0 -ℤ pos 4)
    × (sms_balance
          (of_event 1)
          (refund_credits (of_event 1) 4 (base "r") (reserve (of_event 1) 4 (base "r") db0).0)
        ≡ sms_balance (of_event 1) db0)
reserve_settles_example = reserve_settles 1 4 (base "r") db0 new_key new_commit new_refund granted

same_owner : owning_account_id 1 db0 ≡ some 9
unfolding owning_account_id akabbo.Billing.Entitlements.find_owner
    akabbo.Billing.Entitlements.find_account_id
same_owner = refl

same_owner_too : owning_account_id 2 db0 ≡ some 9
unfolding owning_account_id akabbo.Billing.Entitlements.find_owner
    akabbo.Billing.Entitlements.find_account_id
same_owner_too = refl

reserve_charges_siblings_example :
    sms_balance (of_event 2) (reserve (of_event 1) 4 (base "r") db0).0
    ≡ sms_balance (of_event 2) db0 -ℤ pos 4
reserve_charges_siblings_example =
    reserve_charges_siblings 1 2 9 db0 same_owner same_owner_too 4 (base "r") new_key granted
