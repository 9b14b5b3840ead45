-- ===== src/Comms/Campaigns.antt =====
-- libs/comms/src/sms.service.ts: a campaign is queued against the event's credits, and a worker sends
-- it. The gateway's `sendBulk` is a parameter, and so are the ids that are drawn.
pub mod Queue
pub mod Process
pub mod Again
pub mod Cost
pub mod Repeat
use akabbo.Prelude.{
  ℕ, suc, ◌+◌, ◌-◌, ◌==◌, str_eq, ltb, Bool, true, false, not, ◌&&◌, String, Option, none, some,
  List, [], ◌∷◌, map, if◌then◌else◌, or_else,
}
use akabbo.Prelude.Int.{ℤ, pos, ltb_ℤ}
use akabbo.Prelude.Lists.{length}
use akabbo.Prelude.Result.{Result, ok, err}
use akabbo.Prelude.Tx.{Tx, pure, gets, lift, modify, ◌>>=◌, ◌>>◌}
use akabbo.Access.Permission.{sms_send, sms_read, assert}
use akabbo.Access.Gates.{OperationContext, gates}
use akabbo.Billing.Tables.{of_event, message}
use akabbo.Billing.Entitlements.{sms_balance}
use akabbo.Billing.Credits.{reserve, commit, refund}
use akabbo.Comms.Tables.{
  Db, Campaign, CampaignKind, CampaignStatus, reminder, announcement, campaign_queued,
  campaign_sending, campaign_sent, campaign_partial, campaign_failed, Message, queued, sent, failed,
  pending, map_message, map_campaign, has_job,
}
use akabbo.Ledger.Tables as Ledger
use akabbo.Comms.Recipients.{Recipient, reminder_recipients, announcement_recipients, personalise}

-- `ReminderPreview`
pub record ReminderPreview : Type 0 where
  pub recipient_count : ℕ
  pub estimated_credits : ℕ
  pub sms_balance : ℤ
  pub affordable : ℤ

-- `SendResult`; what is skipped are the recipients beyond the credits.
pub record SendResult : Type 0 where
  pub campaign_id : ℕ
  pub queued : ℕ
  pub skipped : ℕ

-- `previewReminders`
unfoldable pub preview_reminders :
    (List Recipient → List Recipient) → OperationContext → List ℕ → Tx Db ReminderPreview
unfolding reminder_recipients
preview_reminders order ctx ids = do
  lift (assert ctx.role sms_read)
  recipients ← gets (λ db. reminder_recipients order ids ctx.event_id db.ledger)
  balance ← gets (λ db. sms_balance (of_event ctx.event_id) db.billing)
  let count = length recipients
  pure (record {
    recipient_count = count;
    estimated_credits = count;
    sms_balance = balance;
    affordable = if ltb_ℤ balance (pos count) then balance else pos count;
  })

-- The message that one recipient of a campaign gets.
abbrev pub new_message : ℕ → ℕ → String → ℕ → Recipient → Message
new_message ev campaign body id r = record {
  id = id;
  event_id = ev;
  campaign_id = campaign;
  person_id = r.person_id;
  to_phone = r.phone;
  body = personalise body r.display_name;
  status = queued;
  reserve_key = message id;
  segments = none;
  provider_message_id = none;
  sent_at = none;
  error = none;
}

-- The loop of `dispatch`: a credit is reserved before a message is queued, and the first refusal
-- ends the loop. The k-th id that is drawn is `next k`.
unfoldable pub queue_all : ℕ → ℕ → String → (ℕ → ℕ) → ℕ → List Recipient → Db → Db × ℕ
queue_all ev campaign body next k [] db = (db, k)
queue_all ev campaign body next k (r ∷ rs) db =
    let (billing, reserved) = reserve (of_event ev) 1 (message (next k)) db.billing in
    elim reserved.granted [
      | false ↦ (record db { billing = billing }, k)
      | true ↦ queue_all ev campaign body next (suc k) rs (record db {
        billing = billing;
        messages = new_message ev campaign body (next k) r ∷ db.messages;
      })
    ]

-- `smsCampaign.create`
abbrev pub new_campaign : OperationContext → CampaignKind → String → ℕ → Campaign
new_campaign ctx kind body id = record {
  id = id;
  event_id = ctx.event_id;
  kind = kind;
  body = body;
  status = campaign_queued;
  recipient_count = 0;
  created_by_id = ctx.user_id;
}

-- The update of the campaign after the loop, and the job for the worker.
unfoldable pub close_queue : ℕ → ℕ → ℕ → Db → Db
close_queue ev campaign count db = record db {
  campaigns =
      map_campaign ev campaign
        (λ c. record c {
          recipient_count = count;
          status = if ltb 0 count then campaign_sending else campaign_failed;
        })
        db.campaigns;
  jobs =
      if ltb 0 count && not (has_job campaign db.jobs)
      then record { event_id = ev; campaign_id = campaign } ∷ db.jobs
      else db.jobs;
}

-- `dispatch`
unfoldable pub dispatch :
    OperationContext
    → CampaignKind
    → String
    → (ℕ → Ledger.Db → List Recipient)
    → ℕ
    → (ℕ → ℕ)
    → Tx Db SendResult
dispatch ctx kind body resolve id next = do
  lift (gates ctx sms_send)
  recipients ← gets (λ db. resolve ctx.event_id db.ledger)
  modify (λ db. record db { campaigns = new_campaign ctx kind body id ∷ db.campaigns })
  count ← (λ db. let (db', n) = queue_all ctx.event_id id body next 0 recipients db in ok (n, db'))
  modify (close_queue ctx.event_id id count)
  pure (record { campaign_id = id; queued = count; skipped = length recipients - count })

-- `sendReminders`
unfoldable pub send_reminders :
    (List Recipient → List Recipient)
    → OperationContext
    → String
    → List ℕ
    → ℕ
    → (ℕ → ℕ)
    → Tx Db SendResult
send_reminders order ctx body ids = dispatch ctx reminder body (reminder_recipients order ids)

-- `sendAnnouncement`
unfoldable pub send_announcement :
    (List Recipient → List Recipient)
    → OperationContext
    → String
    → List ℕ
    → ℕ
    → (ℕ → ℕ)
    → Tx Db SendResult
send_announcement order ctx body ids =
    dispatch ctx announcement body (announcement_recipients order ids)

-- `SmsDeliveryStatus`
pub data DeliveryStatus : Type 0 where
  queued_there sent_there delivered_there failed_there : DeliveryStatus

abbrev pub is_failed : DeliveryStatus → Bool
is_failed failed_there = true
is_failed _ = false

-- `SmsSendRequest` and `SmsSendResult`
pub record SmsSendRequest : Type 0 where
  pub to : String
  pub body : String
  pub idempotency_key : ℕ

pub record SmsSendResult : Type 0 where
  pub provider_message_id : String
  pub status : DeliveryStatus
  pub segments : ℕ
  pub error : Option String

abbrev pub request : Message → SmsSendRequest
request m = record { to = m.to_phone; body = m.body; idempotency_key = m.id }

-- `results[i]` of a message that was sent, if it was.
abbrev pub accepted : List SmsSendResult → Option SmsSendResult
accepted [] = none
accepted (r ∷ rs) = if is_failed r.status then none else some r

abbrev pub rest_of : List SmsSendResult → List SmsSendResult
rest_of [] = []
rest_of (r ∷ rs) = rs

-- `res?.error ?? 'provider rejected'`
abbrev pub error_of : List SmsSendResult → String
error_of [] = "provider rejected"
error_of (r ∷ rs) = or_else r.error "provider rejected"

abbrev pub mark_sent : ℕ → SmsSendResult → Message → Message
mark_sent now r m = record m {
  status = sent;
  segments = some r.segments;
  provider_message_id =
      if str_eq r.provider_message_id "" then none else some r.provider_message_id;
  sent_at = some now;
}

abbrev pub mark_failed : String → Message → Message
mark_failed why m = record m { status = failed; error = some why }

-- One round of the loop of `processCampaign`. The update finds its row, which was read before and
-- which no code deletes.
unfoldable pub settle : ℕ → ℕ → List SmsSendResult → Message → Db → Db
settle ev now results m db = elim (accepted results) [
  | some r ↦ record db {
    messages = map_message ev m.id (mark_sent now r) db.messages;
    billing = commit (of_event ev) m.reserve_key db.billing;
  }
  | none ↦ record db {
    messages = map_message ev m.id (mark_failed (error_of results)) db.messages;
    billing = refund (of_event ev) 1 m.reserve_key db.billing;
  }
]

abbrev pub is_sent : List SmsSendResult → ℕ
is_sent results = elim (accepted results) [ some _ ↦ 1 | none ↦ 0 ]

-- The loop, with its counts of messages sent and failed.
unfoldable pub settle_all : ℕ → ℕ → List Message → List SmsSendResult → Db → Db × (ℕ × ℕ)
unfolding settle
settle_all ev now [] results db = (db, (0, 0))
settle_all ev now (m ∷ ms) results db =
    let (db', (s, f)) = settle_all ev now ms (rest_of results) (settle ev now results m db) in
    (db', (is_sent results + s, (1 - is_sent results) + f))

abbrev outcome : ℕ → ℕ → CampaignStatus
outcome s f = if f == 0 then campaign_sent else if s == 0 then campaign_failed else campaign_partial

-- `processCampaign` once the pending messages are read: none is an early return.
unfoldable pub send_pending :
    (List SmsSendRequest → Result (List SmsSendResult))
    → ℕ
    → ℕ
    → ℕ
    → List Message
    → Tx Db (Unit {0})
unfolding settle_all
send_pending send_bulk ev campaign now [] db = ok (tt, db)
send_pending send_bulk ev campaign now (m ∷ ms) db = elim (send_bulk (map request (m ∷ ms))) [
  | err e ↦ err e
  | ok results ↦
      let (db', (s, f)) = settle_all ev now (m ∷ ms) results db in
      ok (
        tt,
        record db' {
          campaigns =
              map_campaign ev campaign (λ c. record c { status = outcome s f }) db'.campaigns;
        },
      )
]

-- `processCampaign`
unfoldable pub process_campaign :
    (List SmsSendRequest → Result (List SmsSendResult)) → ℕ → ℕ → ℕ → Tx Db (Unit {0})
unfolding send_pending
process_campaign send_bulk ev campaign now db =
    send_pending send_bulk ev campaign now (pending ev campaign db.messages) db
