-- ===== src/Team/Tables.antt =====
-- The tables of events, members and invitations (prisma/schema.prisma) and the statements on them.
use akabbo.Prelude.{
  ℕ, ◌==◌, str_eq, Bool, false, ◌&&◌, ◌||◌, String, Option, none, some, List, [], ◌∷◌,
  if◌then◌else◌,
}
use akabbo.Prelude.Int.{ℤ}
use akabbo.Prelude.Tx.{Tx, modify}
use akabbo.Access.Permission.{Role, owner, co_owner, coordinator, finance, viewer}
use akabbo.Access.Gates.{EventStatus, draft, active, paused, closed, archived}
use akabbo.Ledger.Tables.{AuditEvent, Snapshot, human_typed}

-- `MembershipStatus`
pub data MembershipStatus : Type 0 where
  invited joined removed : MembershipStatus

-- `InvitationStatus`
pub data InvitationStatus : Type 0 where
  pending accepted expired revoked : InvitationStatus

pub record User : Type 0 where
  pub id : ℕ
  pub phone : Option String

pub record Event : Type 0 where
  pub id : ℕ
  pub name : String
  pub slug : String
  pub status : EventStatus
  pub currency : String
  pub target_amount : Option ℤ
  pub event_date : Option ℕ
  pub timezone : String
  pub country : String
  pub owner_user_id : ℕ

pub record Member : Type 0 where
  pub event_id : ℕ
  pub user_id : ℕ
  pub role : Role
  pub status : MembershipStatus
  pub invited_by_id : Option ℕ

pub record Invitation : Type 0 where
  pub id : ℕ
  pub event_id : ℕ
  pub token : String
  pub role : Role
  pub status : InvitationStatus
  pub invited_phone : Option String
  pub invited_by_id : ℕ
  pub max_uses : ℕ
  pub uses : ℕ
  pub expires_at : ℕ
  pub accepted_by_id : Option ℕ
  pub accepted_at : Option ℕ

pub record Db : Type 0 where
  pub users : List User
  pub events : List Event
  pub members : List Member
  pub invitations : List Invitation
  pub audit : List AuditEvent

-- What the database, the clock and the random source supply to a call.
pub record Env : Type 0 where
  pub id : ℕ
  pub slug : String
  pub token : String
  pub now : ℕ

-- `prisma.event.findUnique({ where: { id } })`
unfoldable pub find_event : ℕ → List Event → Option Event
find_event id [] = none
find_event id (e ∷ es) = if e.id == id then some e else find_event id es

unfoldable pub map_event : ℕ → (Event → Event) → List Event → List Event
map_event id g [] = []
map_event id g (e ∷ es) = (if e.id == id then g e else e) ∷ map_event id g es

unfoldable pub has_slug : String → List Event → Bool
has_slug s [] = false
has_slug s (e ∷ es) = str_eq e.slug s || has_slug s es

unfoldable pub find_user : ℕ → List User → Option User
find_user id [] = none
find_user id (u ∷ us) = if u.id == id then some u else find_user id us

-- `prisma.user.findUnique({ where: { phone } })`
unfoldable pub find_phone : String → List User → Option User
find_phone p [] = none
find_phone p (u ∷ us) =
    if (elim u.phone [ none ↦ false | some q ↦ str_eq q p ]) then some u else find_phone p us

-- `tx.eventMember.findFirst({ where: { eventId, userId } })`
unfoldable pub find_member : ℕ → ℕ → List Member → Option Member
find_member ev user [] = none
find_member ev user (m ∷ ms) =
    if m.event_id == ev && m.user_id == user then some m else find_member ev user ms

-- `tx.eventMember.upsert`: the row of the event and the user is updated, or a new one is inserted.
unfoldable pub upsert_member : Member → (Member → Member) → List Member → List Member
upsert_member new g [] = new ∷ []
upsert_member new g (m ∷ ms) =
    if m.event_id == new.event_id && m.user_id == new.user_id
    then g m ∷ ms
    else m ∷ upsert_member new g ms

-- `prisma.invitation.findUnique({ where: { token } })`
unfoldable pub find_token : String → List Invitation → Option Invitation
find_token t [] = none
find_token t (i ∷ is) = if str_eq i.token t then some i else find_token t is

-- `prisma.invitation.findFirst({ where: { id, eventId } })`
unfoldable pub find_invitation : ℕ → ℕ → List Invitation → Option Invitation
find_invitation ev id [] = none
find_invitation ev id (i ∷ is) =
    if i.id == id && i.event_id == ev then some i else find_invitation ev id is

unfoldable pub map_invitation : ℕ → (Invitation → Invitation) → List Invitation → List Invitation
map_invitation id g [] = []
map_invitation id g (i ∷ is) = (if i.id == id then g i else i) ∷ map_invitation id g is

-- How a role and a status are written into a snapshot.
pub role_name : Role → String
role_name owner = "OWNER"
role_name co_owner = "CO_OWNER"
role_name coordinator = "COORDINATOR"
role_name finance = "FINANCE"
role_name viewer = "VIEWER"

pub status_text : EventStatus → String
status_text draft = "DRAFT"
status_text active = "ACTIVE"
status_text paused = "PAUSED"
status_text closed = "CLOSED"
status_text archived = "ARCHIVED"

-- `AuditWriter.write`, by its event, actor, action, resource and snapshots.
unfoldable pub log_audit :
    ℕ → ℕ → String → String × ℕ → Option Snapshot → Option Snapshot → Tx Db (Unit {0})
log_audit ev actor action (type, id) old new = modify (λ db. record db {
  audit =
      record {
        event_id = ev;
        actor_user_id = actor;
        action = action;
        resource_type = type;
        resource_id = id;
        source = human_typed;
        old_value = old;
        new_value = new;
      }
      ∷ db.audit;
})
