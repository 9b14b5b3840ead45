-- ===== src/Billing/Webhook.antt =====
-- libs/billing/src/billing.service.ts: `applyPaymentWebhook` and `reconcileInvoice`.
pub mod Laws
pub mod Outcomes
use akabbo.Prelude.{
  ℕ, ◌+◌, ◌*◌, ◌==◌, str_eq, ltb, Bool, true, false, not, ◌&&◌, ◌||◌, String, Option, none, some,
  List, [], ◌∷◌, if◌then◌else◌,
}
use akabbo.Prelude.Int.{pos}
use akabbo.Prelude.Result.{unique_violation, missing_record, bad_request}
use akabbo.Prelude.Tx.{Tx, pure, gets, found, modify, throw_if, ◌>>=◌, ◌>>◌}
use akabbo.Billing.Tables.{
  Db, Plan, Grant, active, Invoice, InvoiceStatus, paid, failed, grant as grant_kind, Key,
  invoice_sms, invoice_ai, CreditRow, has_key, matches,
}

-- `PaymentWebhookEvent`; the amount and the currency are not read.
pub record PaymentWebhookEvent : Type 0 where
  pub gateway_transaction_id : String
  pub reference : String
  pub succeeded : Bool

-- `prisma.invoice.findUnique({ where: { reference } })`
unfoldable pub find_invoice : String → List Invoice → Option Invoice
find_invoice ref [] = none
find_invoice ref (i ∷ is) = if str_eq i.reference ref then some i else find_invoice ref is

unfoldable pub find_invoice_id : ℕ → List Invoice → Option Invoice
find_invoice_id id [] = none
find_invoice_id id (i ∷ is) = if i.id == id then some i else find_invoice_id id is

unfoldable pub find_plan : ℕ → List Plan → Option Plan
find_plan id [] = none
find_plan id (p ∷ ps) = if p.id == id then some p else find_plan id ps

abbrev pub is_paid : InvoiceStatus → Bool
is_paid paid = true
is_paid _ = false

abbrev pub same_text : Option String → String → Bool
same_text none t = false
same_text (some s) t = str_eq s t

-- Does another invoice carry this gateway transaction? The column is unique.
unfoldable pub gateway_taken : ℕ → String → List Invoice → Bool
gateway_taken id g [] = false
gateway_taken id g (i ∷ is) =
    not (i.id == id) && same_text i.gateway_transaction_id g || gateway_taken id g is

unfoldable pub settle_invoice : ℕ → InvoiceStatus → String → List Invoice → List Invoice
settle_invoice id s g [] = []
settle_invoice id s g (i ∷ is) =
    (if i.id == id then record i { status = s; gateway_transaction_id = some g } else i)
    ∷ settle_invoice id s g is

-- `tx.invoice.update({ where: { id }, data: { status, gatewayTransactionId } })`
unfoldable pub update_invoice : ℕ → InvoiceStatus → String → Tx Db (Unit {0})
update_invoice id s g = do
  taken ← gets (λ db. gateway_taken id g db.invoices)
  throw_if taken unique_violation
  modify (λ db. record db { invoices = settle_invoice id s g db.invoices })

-- The grant of an event is replaced where there is one.
unfoldable pub upsert_grant : ℕ → Grant → List Grant → List Grant
upsert_grant event g [] = g ∷ []
upsert_grant event g (h ∷ hs) =
    if matches (some event) h.event_id
    then record h {
      plan_id = g.plan_id;
      status = g.status;
      period_start = g.period_start;
      period_end = g.period_end;
    }
      ∷ hs
    else h ∷ upsert_grant event g hs

-- 30 days in milliseconds.
abbrev pub subscription_period : ℕ
subscription_period = 30 * 24 * 60 * 60 * 1000

abbrev pub new_grant : Invoice → Plan → ℕ → Grant
new_grant i plan now = record {
  event_id = i.event_id;
  account_id = (elim i.event_id [ none ↦ some i.billing_account_id | some _ ↦ none ]);
  plan_id = plan.id;
  status = active;
  period_start = now;
  period_end = if plan.is_subscription then some (now + subscription_period) else none;
}

unfoldable pub put_grant : Invoice → Plan → ℕ → Tx Db (Unit {0})
unfolding upsert_grant
put_grant i plan now = modify (λ db. record db {
  grants = elim i.event_id [
    | some event ↦ upsert_grant event (new_grant i plan now) db.grants
    | none ↦ new_grant i plan now ∷ db.grants
  ];
})

-- The credits that a paid invoice brings.
abbrev pub credit_row : Invoice → ℕ → Key → CreditRow
credit_row i credits key = record {
  event_id = i.event_id;
  account_id = (elim i.event_id [ none ↦ some i.billing_account_id | some _ ↦ none ]);
  kind = grant_kind;
  amount = pos credits;
  idempotency_key = key;
}

-- `if (plan.includedSmsCredits > 0) await tx.smsCreditLedger.create(…)`
unfoldable pub credit_sms : Invoice → Plan → Tx Db (Unit {0})
credit_sms i plan db =
    if ltb 0 plan.included_sms_credits
    then (do
      throw_if (has_key (invoice_sms i.id) db.sms) unique_violation
      modify (λ d. record d {
        sms = credit_row i plan.included_sms_credits (invoice_sms i.id) ∷ d.sms;
      }))
        db
    else pure tt db

-- `if (plan.includedAiCredits > 0) await tx.aiCreditLedger.create(…)`
unfoldable pub credit_ai : Invoice → Plan → Tx Db (Unit {0})
credit_ai i plan db =
    if ltb 0 plan.included_ai_credits
    then (do
      throw_if (has_key (invoice_ai i.id) db.ai) unique_violation
      modify
          (λ d. record d { ai = credit_row i plan.included_ai_credits (invoice_ai i.id) ∷ d.ai }))
        db
    else pure tt db

-- The transaction of a successful payment.
unfoldable pub settle_success : Invoice → Option Plan → String → ℕ → Tx Db (Unit {0})
unfolding update_invoice put_grant
settle_success i plan gateway now = do
  update_invoice i.id paid gateway
  elim plan [ none ↦ pure tt | some p ↦ (do put_grant i p now; credit_sms i p; credit_ai i p) ]

-- `invoice.planId ? await this.planById(invoice.planId) : null`
unfoldable pub plan_of : Invoice → Tx Db (Option Plan)
plan_of i = elim i.plan_id [
  | none ↦ pure none
  | some id ↦ do
    row ← gets (λ db. find_plan id db.plans)
    plan ← found row missing_record
    pure (some plan)
]

-- `applyPaymentWebhook`: the answer is `applied`.
unfoldable pub apply_payment_webhook : PaymentWebhookEvent → ℕ → Tx Db Bool
unfolding update_invoice
apply_payment_webhook evt now = do
  row ← gets (λ db. find_invoice evt.reference db.invoices)
  elim row [
    | none ↦ pure false
    | some invoice ↦
        if is_paid invoice.status
        then pure false
        else if not evt.succeeded
        then (do update_invoice invoice.id failed evt.gateway_transaction_id; pure false)
        else (do
          plan ← plan_of invoice
          settle_success invoice plan evt.gateway_transaction_id now
          pure true)
  ]

-- `reconcileInvoice`
unfoldable pub reconcile_invoice : ℕ → String → ℕ → Tx Db Bool
reconcile_invoice id gateway now = do
  row ← gets (λ db. find_invoice_id id db.invoices)
  invoice ← found row bad_request
  throw_if (is_paid invoice.status) bad_request
  apply_payment_webhook
      (record { gateway_transaction_id = gateway; reference = invoice.reference; succeeded = true })
      now
