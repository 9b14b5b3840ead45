-- ===== src/Transparency/Tables.antt =====
-- The public columns of an event, announcements and payment instructions (prisma/schema.prisma),
-- beside the tables of the book.
use akabbo.Prelude.{ℕ, ◌==◌, Bool, String, Option, none, some, List, [], ◌∷◌, ◌+◌, if◌then◌else◌}
use akabbo.Prelude.Int.{ℤ}
use akabbo.Prelude.Result.{missing_record}
use akabbo.Prelude.Tx.{Tx, gets, found, modify, ◌>>=◌, ◌>>◌}
use akabbo.Access.Gates.{OperationContext, EventStatus}
use akabbo.Ledger.Tables.{PaymentMethod, ProvenanceSource, Snapshot}
use akabbo.Ledger.Store.{is_row}
use akabbo.Book.Tables as Book

-- `ContributorVisibility`
pub data ContributorVisibility : Type 0 where
  names_and_amounts names_only aggregate_only hidden : ContributorVisibility

-- `BudgetVisibility`
pub data BudgetVisibility : Type 0 where
  public partially_public hidden : BudgetVisibility

-- `AnnouncementStatus`
pub data AnnouncementStatus : Type 0 where
  draft published archived : AnnouncementStatus

-- The columns of `event` that the public page reads; times are milliseconds.
pub record Event : Type 0 where
  pub id : ℕ
  pub slug : String
  pub name : String
  pub description : Option String
  pub event_date : Option ℕ
  pub status : EventStatus
  pub currency : String
  pub target_amount : Option ℤ
  pub is_public : Bool
  pub public_access_token : Option String
  pub contributor_visibility : ContributorVisibility
  pub budget_visibility : BudgetVisibility
  pub show_target : Bool
  pub show_outstanding : Bool
  pub public_revision : ℕ
  pub created_at : ℕ

-- `EventAnnouncement`
pub record Announcement : Type 0 where
  pub id : ℕ
  pub event_id : ℕ
  pub body : String
  pub status : AnnouncementStatus
  pub source : ProvenanceSource
  pub created_by : ℕ
  pub published_at : Option ℕ
  pub created_at : ℕ

-- `PaymentInstruction`
pub record PaymentInstruction : Type 0 where
  pub id : ℕ
  pub event_id : ℕ
  pub method : PaymentMethod
  pub label : String
  pub details : String
  pub display_order : ℤ
  pub is_public : Bool
  pub created_by : ℕ
  pub created_at : ℕ

pub record Db : Type 0 where
  pub book : Book.Db
  pub events : List Event
  pub announcements : List Announcement
  pub instructions : List PaymentInstruction

-- `prisma.event.findUnique({ where: { id } })`
unfoldable pub find_event : ℕ → List Event → Option Event
find_event id [] = none
find_event id (e ∷ es) = if e.id == id then some e else find_event id es

unfoldable pub map_event : ℕ → (Event → Event) → List Event → List Event
map_event id g [] = []
map_event id g (e ∷ es) = (if e.id == id then g e else e) ∷ map_event id g es

-- `tx.event.update({ where: { id }, data })`: P2025 if there is no such row.
unfoldable pub update_event : ℕ → (Event → Event) → Tx Db (Unit {0})
unfolding find_event map_event
update_event id g = do
  row ← gets (λ db. find_event id db.events)
  found row missing_record
  modify (λ db. record db { events = map_event id g db.events })

-- `bumpRevision`
unfoldable pub bump_revision : ℕ → Tx Db (Unit {0})
unfolding update_event
bump_revision id = update_event id (λ e. record e { public_revision = e.public_revision + 1 })

-- `tx.eventAnnouncement.findFirst({ where: { id } })`
unfoldable pub find_announcement : ℕ → ℕ → List Announcement → Option Announcement
find_announcement ev id [] = none
find_announcement ev id (a ∷ as') =
    if is_row ev id a.event_id a.id then some a else find_announcement ev id as'

unfoldable pub map_announcement :
    ℕ → ℕ → (Announcement → Announcement) → List Announcement → List Announcement
map_announcement ev id g [] = []
map_announcement ev id g (a ∷ as') =
    (if is_row ev id a.event_id a.id then g a else a) ∷ map_announcement ev id g as'

-- `tx.paymentInstruction.findFirst({ where: { id } })`
unfoldable pub find_instruction : ℕ → ℕ → List PaymentInstruction → Option PaymentInstruction
find_instruction ev id [] = none
find_instruction ev id (p ∷ ps) =
    if is_row ev id p.event_id p.id then some p else find_instruction ev id ps

unfoldable pub map_instruction :
    ℕ
    → ℕ
    → (PaymentInstruction → PaymentInstruction)
    → List PaymentInstruction
    → List PaymentInstruction
map_instruction ev id g [] = []
map_instruction ev id g (p ∷ ps) =
    (if is_row ev id p.event_id p.id then g p else p) ∷ map_instruction ev id g ps

-- `tx.paymentInstruction.delete({ where: { id } })`
unfoldable pub delete_instruction : ℕ → ℕ → List PaymentInstruction → List PaymentInstruction
delete_instruction ev id [] = []
delete_instruction ev id (p ∷ ps) =
    let rest = delete_instruction ev id ps in
    if is_row ev id p.event_id p.id then rest else p ∷ rest

-- `AuditWriter.write`, by its action, resource, source and snapshots.
unfoldable pub log :
    OperationContext
    → String
    → String × ℕ
    → ProvenanceSource
    → Option Snapshot
    → Option Snapshot
    → Tx Db (Unit {0})
log ctx action (type, id) source old new = modify (λ db. record db {
  book = record db.book {
    ledger = record db.book.ledger {
      audit =
          record {
            event_id = ctx.event_id;
            actor_user_id = ctx.user_id;
            action = action;
            resource_type = type;
            resource_id = id;
            source = source;
            old_value = old;
            new_value = new;
          }
          ∷ db.book.ledger.audit;
    };
  };
})
