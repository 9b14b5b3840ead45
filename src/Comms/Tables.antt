-- ===== src/Comms/Tables.antt =====
-- The tables of libs/comms (prisma/schema.prisma), beside those of the ledger and of billing.
use akabbo.Prelude.{
  ℕ, ◌==◌, Bool, true, false, ◌&&◌, ◌||◌, String, Option, List, [], ◌∷◌, if◌then◌else◌,
}
use akabbo.Billing.Tables.{Key}
use akabbo.Billing.Tables as Billing
use akabbo.Ledger.Tables as Ledger

-- `SmsCampaignKind`
pub data CampaignKind : Type 0 where
  reminder announcement : CampaignKind

-- `SmsCampaignStatus`
pub data CampaignStatus : Type 0 where
  campaign_queued campaign_sending campaign_sent campaign_partial campaign_failed : CampaignStatus

-- `SmsStatus`
pub data SmsStatus : Type 0 where
  queued sent failed : SmsStatus

-- A row of `sms_campaign`.
pub record Campaign : Type 0 where
  pub id : ℕ
  pub event_id : ℕ
  pub kind : CampaignKind
  pub body : String
  pub status : CampaignStatus
  pub recipient_count : ℕ
  pub created_by_id : ℕ

-- A row of `sms_message`.
pub record Message : Type 0 where
  pub id : ℕ
  pub event_id : ℕ
  pub campaign_id : ℕ
  pub person_id : ℕ
  pub to_phone : String
  pub body : String
  pub status : SmsStatus
  pub reserve_key : Key
  pub segments : Option ℕ
  pub provider_message_id : Option String
  pub sent_at : Option ℕ
  pub error : Option String

-- A row of `outbox` with the topic `sms.campaign`, under the key `sms-campaign:id`.
pub record Job : Type 0 where
  pub event_id : ℕ
  pub campaign_id : ℕ

pub record Db : Type 0 where
  pub ledger : Ledger.Db
  pub billing : Billing.Db
  pub campaigns : List Campaign
  pub messages : List Message
  pub jobs : List Job

abbrev pub is_queued : SmsStatus → Bool
is_queued queued = true
is_queued _ = false

-- `tx.smsMessage.findMany({ where: { campaignId, status: QUEUED } })` inside the event.
unfoldable pub pending : ℕ → ℕ → List Message → List Message
pending ev campaign [] = []
pending ev campaign (m ∷ ms) =
    if (m.event_id == ev) && (m.campaign_id == campaign) && is_queued m.status
    then m ∷ pending ev campaign ms
    else pending ev campaign ms

-- `tx.smsMessage.update({ where: { id }, data })`
unfoldable pub map_message : ℕ → ℕ → (Message → Message) → List Message → List Message
map_message ev id g [] = []
map_message ev id g (m ∷ ms) =
    (if (m.event_id == ev) && (m.id == id) then g m else m) ∷ map_message ev id g ms

-- `tx.smsCampaign.update({ where: { id }, data })`
unfoldable pub map_campaign : ℕ → ℕ → (Campaign → Campaign) → List Campaign → List Campaign
map_campaign ev id g [] = []
map_campaign ev id g (c ∷ cs) =
    (if (c.event_id == ev) && (c.id == id) then g c else c) ∷ map_campaign ev id g cs

-- Is the campaign's job enqueued?
unfoldable pub has_job : ℕ → List Job → Bool
has_job id [] = false
has_job id (j ∷ js) = (j.campaign_id == id) || has_job id js
