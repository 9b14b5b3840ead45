-- ===== src/Comms/Delivery.antt =====
-- libs/comms/src/sms.service.ts: which campaigns there were, and whom their messages reached.
use akabbo.Prelude.{
  ℕ, ◌+◌, ◌==◌, ◌≡◌, refl, Bool, true, false, ◌&&◌, String, Option, none, some, List, [], ◌∷◌, map,
  arith, if◌then◌else◌,
}
use akabbo.Prelude.Lists.{length, length-map}
use akabbo.Prelude.Result.{not_found}
use akabbo.Prelude.Tx.{Tx, gets, lift, found, ◌>>=◌, ◌>>◌}
use akabbo.Access.Permission.{sms_read, assert}
use akabbo.Access.Gates.{OperationContext}
use akabbo.Ledger.Store.{find_person}
use akabbo.Ledger.Tables.{Person}
use akabbo.Comms.Tables.{
  Db, Campaign, CampaignKind, CampaignStatus, Message, SmsStatus, sent, failed, is_queued,
}

-- What `listCampaigns` selects; `createdAt` is left out.
pub record CampaignView : Type 0 where
  pub id : ℕ
  pub kind : CampaignKind
  pub body : String
  pub status : CampaignStatus
  pub recipient_count : ℕ

-- The rows stand newest first.
unfoldable pub campaigns_of : ℕ → List Campaign → List CampaignView
campaigns_of ev [] = []
campaigns_of ev (c ∷ cs) =
    let rest = campaigns_of ev cs in
    if c.event_id == ev
    then record {
      id = c.id;
      kind = c.kind;
      body = c.body;
      status = c.status;
      recipient_count = c.recipient_count;
    }
      ∷ rest
    else rest

-- `listCampaigns`
unfoldable pub list_campaigns : OperationContext → Tx Db (List CampaignView)
unfolding campaigns_of
list_campaigns ctx = do
  lift (assert ctx.role sms_read)
  gets (λ db. campaigns_of ctx.event_id db.campaigns)

unfoldable pub find_campaign : ℕ → ℕ → List Campaign → Option Campaign
find_campaign ev id [] = none
find_campaign ev id (c ∷ cs) =
    if (c.event_id == ev) && (c.id == id) then some c else find_campaign ev id cs

-- `getCampaign`
unfoldable pub get_campaign : OperationContext → ℕ → Tx Db Campaign
unfolding find_campaign
get_campaign ctx id = do
  lift (assert ctx.role sms_read)
  row ← gets (λ db. find_campaign ctx.event_id id db.campaigns)
  found row not_found

-- `where: campaignId ? { campaignId } : {}`
unfoldable pub messages_of : ℕ → Option ℕ → List Message → List Message
messages_of ev campaign [] = []
messages_of ev campaign (m ∷ ms) =
    let rest = messages_of ev campaign ms in
    if (m.event_id == ev) && elim campaign [ none ↦ true | some c ↦ m.campaign_id == c ]
    then m ∷ rest
    else rest

abbrev is_sent : SmsStatus → Bool
is_sent sent = true
is_sent _ = false

abbrev is_failed : SmsStatus → Bool
is_failed failed = true
is_failed _ = false

unfoldable pub with_status : (SmsStatus → Bool) → List Message → List Message
with_status test [] = []
with_status test (m ∷ ms) =
    let rest = with_status test ms in if test m.status then m ∷ rest else rest

-- `r.person?.displayName ?? r.toPhone`
unfoldable pub name_on : ℕ → List Person → Message → String
name_on ev people m = elim (find_person ev m.person_id people) [
  | none ↦ m.to_phone
  | some p ↦ p.display_name
]

pub record Delivery : Type 0 where
  pub sent : List String
  pub failed : List String
  pub pending : List String

unfoldable pub delivery_of : (Message → String) → List Message → Delivery
unfolding with_status
delivery_of name rows = record {
  sent = map name (with_status is_sent rows);
  failed = map name (with_status is_failed rows);
  pending = map name (with_status is_queued rows);
}

-- `delivery`
unfoldable pub delivery : OperationContext → Option ℕ → Tx Db Delivery
unfolding messages_of delivery_of name_on
delivery ctx campaign = do
  lift (assert ctx.role sms_read)
  gets (λ db.
      delivery_of (name_on ctx.event_id db.ledger.people)
        (messages_of ctx.event_id campaign db.messages))

with_status_split :
    (rows : List Message)
    → length (with_status is_sent rows)
        + length (with_status is_failed rows)
        + length (with_status is_queued rows)
      ≡ length rows
unfolding with_status length
with_status_split [] = refl
with_status_split (m ∷ ms) = ground (arith, with_status_split ms)

-- Every message that a delivery view is about stands in exactly one of its three lists.
pub delivery_of-length :
    (name : Message → String) (rows : List Message)
    → length (delivery_of name rows).sent
        + length (delivery_of name rows).failed
        + length (delivery_of name rows).pending
      ≡ length rows
unfolding delivery_of
delivery_of-length name rows = omega (
  arith,
  length-map name (with_status is_sent rows),
  length-map name (with_status is_failed rows),
  length-map name (with_status is_queued rows),
  with_status_split rows,
)
