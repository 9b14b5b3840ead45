-- ===== src/Billing/Webhook/Outcomes.antt =====
-- A payment is applied once, brings exactly the credits of the plan, and a failed one brings nothing.
use akabbo.Prelude.{
  ℕ, ==_refl, ◌≡◌, refl, ap, sym, ◌∙◌, Bool, true, false, String, none, some, arith,
}
use akabbo.Prelude.Int.{pos, ◌+ℤ◌}
use akabbo.Prelude.Result.{ok}
use mathlib.Core.Option.{some-injective}
use akabbo.Billing.Tables.{Db, Invoice, paid, Plan, sum_amounts}
use akabbo.Billing.Webhook.{
  PaymentWebhookEvent, find_invoice, find_plan, is_paid, update_invoice, plan_of,
  apply_payment_webhook,
}
use akabbo.Billing.Webhook.Laws.{
  settled, find_invoice-settle_invoice, apply_payment_webhook-Applied, settle_success-Settled,
}

settled_lem :
    (i : Invoice) (g : String)
    → settled i.id paid g i ≡ record i { status = paid; gateway_transaction_id = some g }
unfolding settled
settled_lem i g = rw (==_refl i.id) refl

-- The invoice of an applied webhook, as it stands afterwards.
applied_invoice :
    (evt : PaymentWebhookEvent) (now : ℕ) (db : Db) {db' : Db} (i : Invoice)
    → apply_payment_webhook evt now db ≡ ok (true, db')
    → find_invoice evt.reference db.invoices ≡ some i
    → find_invoice evt.reference db'.invoices
      ≡ some (record i { status = paid; gateway_transaction_id = some evt.gateway_transaction_id })
applied_invoice evt now db {db'} i h there =
    let a = apply_payment_webhook-Applied evt now db h in
    let s = settle_success-Settled a.invoice a.plan evt.gateway_transaction_id now db a.settling in
    let same = some-injective a.invoice i (sym a.there ∙ there) in
    ap (find_invoice evt.reference) s.invoices
    ∙ find_invoice-settle_invoice evt.reference a.invoice.id paid evt.gateway_transaction_id
        db.invoices a.invoice a.there
    ∙ ap some (settled_lem a.invoice evt.gateway_transaction_id)
    ∙ ap
        (λ (j : Invoice).
          some
            (record j { status = paid; gateway_transaction_id = some evt.gateway_transaction_id }))
        same

webhook_on_paid :
    (evt : PaymentWebhookEvent) (now : ℕ) (db : Db) {i : Invoice}
    → find_invoice evt.reference db.invoices ≡ some i
    → is_paid i.status ≡ true
    → apply_payment_webhook evt now db ≡ ok (false, db)
unfolding apply_payment_webhook
webhook_on_paid evt now db there is = ground arith

-- After a webhook was applied, any later webhook with the same reference answers `applied: false`
-- and changes no table, whatever it carries and whenever it comes.
pub apply_payment_webhook_once :
    (evt later : PaymentWebhookEvent) (now moment : ℕ) (db : Db) {db' : Db}
    → apply_payment_webhook evt now db ≡ ok (true, db')
    → later.reference ≡ evt.reference
    → apply_payment_webhook later moment db' ≡ ok (false, db')
apply_payment_webhook_once evt later now moment db {db'} h same =
    let a = apply_payment_webhook-Applied evt now db h in
    let found = applied_invoice evt now db a.invoice h a.there in
    webhook_on_paid later moment db' (ap (λ r. find_invoice r db'.invoices) same ∙ found) refl

plan_of_listed :
    (i : Invoice) (p : Plan) (plan : ℕ) (db : Db)
    → i.plan_id ≡ some plan
    → find_plan plan db.plans ≡ some p
    → plan_of i db ≡ ok (some p, db)
unfolding plan_of
plan_of_listed i p plan db e h = rw e (rw h refl)

-- A webhook that was applied leaves the invoice of its reference paid; for an invoice with an event
-- and a plan, the event's own SMS and AI credits rise by exactly what the plan includes.
pub apply_payment_webhook_grants :
    (evt : PaymentWebhookEvent) (now : ℕ) (db : Db) {db' : Db} (i : Invoice) (p : Plan)
    (plan event : ℕ)
    → apply_payment_webhook evt now db ≡ ok (true, db')
    → find_invoice evt.reference db.invoices ≡ some i
    → i.plan_id ≡ some plan
    → find_plan plan db.plans ≡ some p
    → i.event_id ≡ some event
    → (find_invoice evt.reference db'.invoices
        ≡ some
            (record i { status = paid; gateway_transaction_id = some evt.gateway_transaction_id }))
      × (sum_amounts (some event) none db'.sms
          ≡ pos p.included_sms_credits +ℤ sum_amounts (some event) none db.sms)
      × (sum_amounts (some event) none db'.ai
          ≡ pos p.included_ai_credits +ℤ sum_amounts (some event) none db.ai)
apply_payment_webhook_grants evt now db i p plan event h there planned listed scoped =
    let a = apply_payment_webhook-Applied evt now db h in
    let s = settle_success-Settled a.invoice a.plan evt.gateway_transaction_id now db a.settling in
    let same = some-injective a.invoice i (sym a.there ∙ there) in
    let with_plan = plan_of_listed i p plan db planned listed in
    let its_plan : a.plan ≡ some p =
      let other = a.planned in let x = ap (λ j. plan_of j db) same in cc in
    let its_event : a.invoice.event_id ≡ some event = cc in
    (
      applied_invoice evt now db i h there,
      s.sms p event its_plan its_event,
      s.ai p event its_plan its_event,
    )

-- A webhook that reports a failed payment never grants or credits anything: whatever it returns, the
-- grants and both credit ledgers are those of before.
pub apply_payment_webhook_failed :
    (evt : PaymentWebhookEvent) (now : ℕ) (db : Db) {b : Bool} {db' : Db}
    → evt.succeeded ≡ false
    → apply_payment_webhook evt now db ≡ ok (b, db')
    → (b ≡ false) × (db'.grants ≡ db.grants) × (db'.sms ≡ db.sms) × (db'.ai ≡ db.ai)
unfolding apply_payment_webhook update_invoice
apply_payment_webhook_failed evt now db bad h =
    (ground arith, ground arith, ground arith, ground arith)
