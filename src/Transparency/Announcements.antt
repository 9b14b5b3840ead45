-- ===== src/Transparency/Announcements.antt =====
-- libs/transparency/src/announcement.service.ts: public announcements, from a draft on.
pub mod Laws
use akabbo.Prelude.{ℕ, ◌==◌, String, Option, none, some, List, [], ◌∷◌, map, if◌then◌else◌}
use akabbo.Prelude.Result.{not_found}
use akabbo.Prelude.Tx.{Tx, pure, gets, lift, found, modify, ◌>>=◌, ◌>>◌}
use akabbo.Access.Permission.{announcement_read, announcement_write, assert}
use akabbo.Access.Gates.{OperationContext}
use akabbo.Ledger.Tables.{ProvenanceSource, human_typed, text}
use akabbo.Transparency.Tables.{
  Db, Announcement, AnnouncementStatus, draft, published, archived, find_announcement,
  map_announcement, bump_revision, log,
}

-- `AnnouncementView`
pub record AnnouncementView : Type 0 where
  pub id : ℕ
  pub body : String
  pub status : AnnouncementStatus
  pub source : ProvenanceSource
  pub published_at : Option ℕ
  pub created_at : ℕ

-- `toView`
unfoldable pub to_view : Announcement → AnnouncementView
to_view a = record {
  id = a.id;
  body = a.body;
  status = a.status;
  source = a.source;
  published_at = a.published_at;
  created_at = a.created_at;
}

announcement_status_name : AnnouncementStatus → String
announcement_status_name draft = "DRAFT"
announcement_status_name published = "PUBLISHED"
announcement_status_name archived = "ARCHIVED"

-- `create`; `id` is the id that the database draws, `now` its time.
unfoldable pub create :
    OperationContext → String → ProvenanceSource → ℕ → ℕ → Tx Db AnnouncementView
unfolding to_view log
create ctx body source id now = do
  lift (assert ctx.role announcement_write)
  let a : Announcement = record {
    id = id;
    event_id = ctx.event_id;
    body = body;
    status = draft;
    source = source;
    created_by = ctx.user_id;
    published_at = none;
    created_at = now;
  }
  modify (λ db. record db { announcements = a ∷ db.announcements })
  log ctx "announcement:create" ("event_announcement", id) source none
      (some (("body", text body) ∷ []))
  pure (to_view a)

-- `status === PUBLISHED ? new Date() : undefined`: any other transition keeps the time.
unfoldable pub stamp : AnnouncementStatus → ℕ → Option ℕ → Option ℕ
stamp published now old = some now
stamp _ now old = old

-- The row after a transition.
unfoldable pub moved : AnnouncementStatus → ℕ → Announcement → Announcement
unfolding stamp
moved status now a = record a { status = status; published_at = stamp status now a.published_at }

-- `transition`
unfoldable pub transition :
    OperationContext → ℕ → AnnouncementStatus → String → ℕ → Tx Db AnnouncementView
unfolding to_view log find_announcement map_announcement moved bump_revision
    announcement_status_name
transition ctx id status action now = do
  lift (assert ctx.role announcement_write)
  row ← gets (λ db. find_announcement ctx.event_id id db.announcements)
  current ← found row not_found
  modify (λ db. record db {
    announcements = map_announcement ctx.event_id id (moved status now) db.announcements;
  })
  bump_revision ctx.event_id
  log ctx action ("event_announcement", id) human_typed
      (some (("status", text (announcement_status_name current.status)) ∷ []))
      (some (("status", text (announcement_status_name status)) ∷ []))
  pure (to_view (moved status now current))

unfoldable pub publish : OperationContext → ℕ → ℕ → Tx Db AnnouncementView
unfolding transition
publish ctx id now = transition ctx id published "announcement:publish" now

unfoldable pub archive : OperationContext → ℕ → ℕ → Tx Db AnnouncementView
unfolding transition
archive ctx id now = transition ctx id archived "announcement:archive" now

-- The rows of the event; they stand newest first, as `orderBy: { createdAt: 'desc' }` asks.
unfoldable pub of_event : ℕ → List Announcement → List Announcement
of_event ev [] = []
of_event ev (a ∷ rows) = let rest = of_event ev rows in if a.event_id == ev then a ∷ rest else rest

-- `list`
unfoldable pub list : OperationContext → Tx Db (List AnnouncementView)
unfolding to_view of_event
list ctx = do
  lift (assert ctx.role announcement_read)
  gets (λ db. map to_view (of_event ctx.event_id db.announcements))
