-- ===== src/Billing/Webhook/Laws.antt =====
-- Inversion of a webhook that was applied: the invoice it settles and the credits it brings.
use akabbo.Prelude.{
  ℕ, ◌==◌, ◌≡◌, ap, sym, ◌∙◌, inl, inr, true, false, String, Option, none, some, List, [], ◌∷◌,
  arith, Bool-cases, Option-cases, if◌then◌else◌,
}
use akabbo.Prelude.Int.{pos, ◌+ℤ◌, zero-+ℤ}
use akabbo.Prelude.Result.{ok, Result-cases}
use akabbo.Prelude.Tx.{>>=-eq-ok, ◌>>◌, pure}
use akabbo.Billing.Tables.{Db, Invoice, InvoiceStatus, paid, Plan, sum_amounts}
use akabbo.Billing.Webhook.{
  PaymentWebhookEvent, find_invoice, is_paid, settle_invoice, update_invoice, put_grant, credit_sms,
  credit_ai, settle_success, plan_of, apply_payment_webhook,
}

unfoldable pub settled : ℕ → InvoiceStatus → String → Invoice → Invoice
settled id s g i =
    if i.id == id then record i { status = s; gateway_transaction_id = some g } else i

pub find_invoice-settle_invoice :
    (ref : String) (id : ℕ) (s : InvoiceStatus) (g : String) (is : List Invoice) (i : Invoice)
    → find_invoice ref is ≡ some i
    → find_invoice ref (settle_invoice id s g is) ≡ some (settled id s g i)
unfolding find_invoice settle_invoice settled
find_invoice-settle_invoice ref id s g [] i h = cc
find_invoice-settle_invoice ref id s g (j ∷ is) i h = elim (Bool-cases (j.id == id)) [
  | inl same ↦ rw same (ground (arith, find_invoice-settle_invoice ref id s g is i))
  | inr other ↦ rw other (ground (arith, find_invoice-settle_invoice ref id s g is i))
]

-- What the credits leave alone, and what they add.
credit_sms_lem :
    (i : Invoice) (p : Plan) (db : Db) {db' : Db}
    → credit_sms i p db ≡ ok (_, db')
    → (db'.invoices ≡ db.invoices)
      × (db'.ai ≡ db.ai)
      × ((ev : ℕ)
          → i.event_id ≡ some ev
          → sum_amounts (some ev) none db'.sms
            ≡ pos p.included_sms_credits +ℤ sum_amounts (some ev) none db.sms)
unfolding credit_sms sum_amounts
credit_sms_lem i p db h = (
  ground arith,
  ground arith,
  λ ev e. ground (arith, zero-+ℤ (sum_amounts (some ev) none db.sms)),
)

credit_ai_lem :
    (i : Invoice) (p : Plan) (db : Db) {db' : Db}
    → credit_ai i p db ≡ ok (_, db')
    → (db'.invoices ≡ db.invoices)
      × (db'.sms ≡ db.sms)
      × ((ev : ℕ)
          → i.event_id ≡ some ev
          → sum_amounts (some ev) none db'.ai
            ≡ pos p.included_ai_credits +ℤ sum_amounts (some ev) none db.ai)
unfolding credit_ai sum_amounts
credit_ai_lem i p db h =
    (ground arith, ground arith, λ ev e. ground (arith, zero-+ℤ (sum_amounts (some ev) none db.ai)))

plan_of_lem :
    (i : Invoice) (db : Db) {p : Option Plan} {db' : Db} → plan_of i db ≡ ok (p, db') → db' ≡ db
unfolding plan_of
plan_of_lem i db h = ground arith

-- A webhook that is applied found an invoice that was not paid, and settled it.
pub record Applied (evt : PaymentWebhookEvent) (now : ℕ) (db db' : Db) : Type 0 where
  pub invoice : Invoice
  pub there : find_invoice evt.reference db.invoices ≡ some invoice
  pub unpaid : is_paid invoice.status ≡ false
  pub succeeded : evt.succeeded ≡ true
  pub plan : Option Plan
  pub planned : plan_of invoice db ≡ ok (plan, db)
  pub settling : settle_success invoice plan evt.gateway_transaction_id now db ≡ ok (_, db')

pub apply_payment_webhook-Applied :
    (evt : PaymentWebhookEvent) (now : ℕ) (db : Db) {db' : Db}
    → apply_payment_webhook evt now db ≡ ok (true, db')
    → Applied evt now db db'
unfolding apply_payment_webhook
apply_payment_webhook-Applied evt now db {db'} h =
    elim (Option-cases (find_invoice evt.reference db.invoices)) [
      | inl unknown ↦ absurd (ground arith)
      | inr (i, there) ↦ elim (Result-cases (plan_of i db)) [
        | inr (e, bad) ↦ absurd (ground arith)
        | inl ((p, db1), planned) ↦
            let same = plan_of_lem i db {p = p} planned in
            record {
              invoice = i;
              there = there;
              unpaid = ground arith;
              succeeded = ground arith;
              plan = p;
              planned = rw same at planned;
              settling = ground arith;
            }
      ]
    ]

update_invoice_lem :
    (id : ℕ) (s : InvoiceStatus) (g : String) (db : Db) {db' : Db}
    → update_invoice id s g db ≡ ok (_, db')
    → db' ≡ record db { invoices = settle_invoice id s g db.invoices }
unfolding update_invoice
update_invoice_lem id s g db h = ground arith

put_grant_lem :
    (i : Invoice) (p : Plan) (now : ℕ) (db : Db) {db' : Db}
    → put_grant i p now db ≡ ok (_, db')
    → (db'.invoices ≡ db.invoices) × (db'.sms ≡ db.sms) × (db'.ai ≡ db.ai)
unfolding put_grant
put_grant_lem i p now db h = (ground arith, ground arith, ground arith)

-- What a settled payment leaves of the tables.
pub record Settled (i : Invoice) (plan : Option Plan) (g : String) (db db' : Db) : Type 0 where
  pub invoices : db'.invoices ≡ settle_invoice i.id paid g db.invoices
  pub sms :
      (p : Plan) (ev : ℕ)
      → plan ≡ some p
      → i.event_id ≡ some ev
      → sum_amounts (some ev) none db'.sms
        ≡ pos p.included_sms_credits +ℤ sum_amounts (some ev) none db.sms
  pub ai :
      (p : Plan) (ev : ℕ)
      → plan ≡ some p
      → i.event_id ≡ some ev
      → sum_amounts (some ev) none db'.ai
        ≡ pos p.included_ai_credits +ℤ sum_amounts (some ev) none db.ai

put_grant-Settled :
    (i : Invoice) (p : Plan) (g : String) (db db1 db2 db3 db' : Db)
    → db1 ≡ record db { invoices = settle_invoice i.id paid g db.invoices }
    → (db2.invoices ≡ db1.invoices) × (db2.sms ≡ db1.sms) × (db2.ai ≡ db1.ai)
    → (db3.invoices ≡ db2.invoices)
      × (db3.ai ≡ db2.ai)
      × ((ev : ℕ)
          → i.event_id ≡ some ev
          → sum_amounts (some ev) none db3.sms
            ≡ pos p.included_sms_credits +ℤ sum_amounts (some ev) none db2.sms)
    → (db'.invoices ≡ db3.invoices)
      × (db'.sms ≡ db3.sms)
      × ((ev : ℕ)
          → i.event_id ≡ some ev
          → sum_amounts (some ev) none db'.ai
            ≡ pos p.included_ai_credits +ℤ sum_amounts (some ev) none db3.ai)
    → Settled i (some p) g db db'
put_grant-Settled i p g db db1 db2 db3 db' e (g1, g2, g3) (s1, s2, s3) (a1, a2, a3) = record {
  invoices = ground arith;
  sms = λ q ev same here. let x = s3 ev here in let y = ap (λ d. d.sms) e in cc;
  ai = λ q ev same here. let x = a3 ev here in let y = ap (λ d. d.ai) e in cc;
}

pub settle_success-Settled :
    (i : Invoice) (plan : Option Plan) (g : String) (now : ℕ) (db : Db) {db' : Db}
    → settle_success i plan g now db ≡ ok (_, db')
    → Settled i plan g db db'
unfolding settle_success
settle_success-Settled i none g now db {db'} h =
    let (_, db1, updated, rest) = >>=-eq-ok (update_invoice i.id paid g) (λ _. pure tt) db h in
    let e = update_invoice_lem i.id paid g db updated in
    let same : db1 ≡ db' = cc in
    record {
      invoices = ap (λ d. d.invoices) (sym same ∙ e);
      sms = λ p ev e. absurd (cc e);
      ai = λ p ev e. absurd (cc e);
    }
settle_success-Settled i (some p) g now db {db'} h =
    let (_, db1, updated, rest) =
      >>=-eq-ok (update_invoice i.id paid g)
        (λ _. put_grant i p now >> (credit_sms i p >> credit_ai i p)) db h in
    let (_, db2, granted, rest2) =
      >>=-eq-ok (put_grant i p now) (λ _. credit_sms i p >> credit_ai i p) db1 rest in
    let (_, db3, by_sms, by_ai) = >>=-eq-ok (credit_sms i p) (λ _. credit_ai i p) db2 rest2 in
    put_grant-Settled i p g db db1 db2 db3 db' (update_invoice_lem i.id paid g db updated)
      (put_grant_lem i p now db1 granted) (credit_sms_lem i p db2 by_sms)
      (credit_ai_lem i p db3 by_ai)
