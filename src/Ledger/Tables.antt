-- ===== src/Ledger/Tables.antt =====
-- The tables of libs/ledger (prisma/schema.prisma): people, pledges, fulfillments, the audit trail
-- and the outbox. Identifiers (UUIDs) are only compared, so they are numbers; a point in time is
-- its number of milliseconds.
use akabbo.Prelude.{ℕ, Bool, String, Option, List}
use akabbo.Prelude.Int.{ℤ}
use akabbo.Ledger.Status.{PledgeStatus, pledged, partially_fulfilled, fulfilled, cancelled}

pub data PledgeType : Type 0 where
  cash item service : PledgeType

pub data FulfillmentKind : Type 0 where
  payment delivery : FulfillmentKind

-- `PaymentMethod`; `in_cash` is its `CASH`.
pub data PaymentMethod : Type 0 where
  mtn airtel in_cash bank other unknown : PaymentMethod

pub data VerificationStatus : Type 0 where
  reported unverified verified : VerificationStatus

pub data ProvenanceSource : Type 0 where
  human_typed ai_from_chat ai_from_document ai_from_payment_sms : ProvenanceSource
  manual_correction imported : ProvenanceSource

pub record Person : Type 0 where
  pub id : ℕ
  pub event_id : ℕ
  pub display_name : String
  pub phone : Option String
  pub user_id : Option ℕ
  pub source : ProvenanceSource
  pub created_by : ℕ

pub record Pledge : Type 0 where
  pub id : ℕ
  pub event_id : ℕ
  pub person_id : ℕ
  pub type : PledgeType
  pub committed_value : ℤ
  pub status : PledgeStatus
  pub target_budget_item_id : Option ℕ
  pub description : Option String
  pub quantity : Option ℕ
  pub unit : Option String
  pub estimated_value : Option ℤ
  pub is_direct : Bool
  pub source : ProvenanceSource
  pub created_by : ℕ

pub record Fulfillment : Type 0 where
  pub id : ℕ
  pub event_id : ℕ
  pub pledge_id : ℕ
  pub kind : FulfillmentKind
  pub value : ℤ
  pub currency : String
  pub method : PaymentMethod
  pub verification_status : VerificationStatus
  pub note : Option String
  pub occurred_at : ℕ
  pub idempotency_key : Option String
  pub source : ProvenanceSource
  pub created_by : ℕ
  pub created_at : ℕ

-- A value of a JSON snapshot.
pub data Json : Type 0 where
  null : Json
  text : String → Json
  ref : ℕ → Json
  flag : Bool → Json

abbrev pub Snapshot : Type 0
Snapshot = List (String × Json)

-- A row of `audit_event`; a missing snapshot is `Prisma.JsonNull`.
pub record AuditEvent : Type 0 where
  pub event_id : ℕ
  pub actor_user_id : ℕ
  pub action : String
  pub resource_type : String
  pub resource_id : ℕ
  pub source : ProvenanceSource
  pub old_value : Option Snapshot
  pub new_value : Option Snapshot

-- A row of `outbox` as the ledger writes it, under the key of the fulfillment that it announces.
pub record OutboxRow : Type 0 where
  pub event_id : ℕ
  pub topic : String
  pub fulfillment_id : ℕ
  pub payload : Snapshot

pub record Db : Type 0 where
  pub people : List Person
  pub pledges : List Pledge
  pub fulfillments : List Fulfillment
  pub audit : List AuditEvent
  pub outbox : List OutboxRow

-- How a Prisma enumeration is written into a snapshot.
pub status_name : PledgeStatus → String
status_name pledged = "PLEDGED"
status_name partially_fulfilled = "PARTIALLY_FULFILLED"
status_name fulfilled = "FULFILLED"
status_name cancelled = "CANCELLED"

pub type_name : PledgeType → String
type_name cash = "CASH"
type_name item = "ITEM"
type_name service = "SERVICE"

pub method_name : PaymentMethod → String
method_name mtn = "MTN"
method_name airtel = "AIRTEL"
method_name in_cash = "CASH"
method_name bank = "BANK"
method_name other = "OTHER"
method_name unknown = "UNKNOWN"

pub verification_name : VerificationStatus → String
verification_name reported = "REPORTED"
verification_name unverified = "UNVERIFIED"
verification_name verified = "VERIFIED"
