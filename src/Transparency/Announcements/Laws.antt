-- ===== src/Transparency/Announcements/Laws.antt =====
-- What visitors see of an announcement, from its draft on.
use akabbo.Prelude.{ℕ, ◌≡◌, refl, String, List, [], ◌∷◌, arith, ap, ◌∙◌, sym, if◌then◌else◌}
use akabbo.Prelude.Int.{ℤ}
use akabbo.Prelude.Result.{ok}
use akabbo.Access.Permission.{assert}
use akabbo.Transparency.Contributors.Private.{bare_ledger}
use akabbo.Access.Gates.{OperationContext}
use akabbo.Ledger.Tables.{ProvenanceSource}
use akabbo.Ledger.Store.{is_row}
use akabbo.Transparency.Tables.{
  Db, Event, Announcement, archived, map_announcement, bump_revision, update_event, log,
}
use akabbo.Transparency.Announcements.{AnnouncementView, create, transition, archive, moved}
use akabbo.Transparency.Page.{project}
use akabbo.Transparency.Page.Privacy.{public_part, only_published, project-public_part}

-- The rows without one of them.
unfoldable pub without : ℕ → ℕ → List Announcement → List Announcement
without ev id [] = []
without ev id (a ∷ rows) =
    let rest = without ev id rows in if is_row ev id a.event_id a.id then rest else a ∷ rest

create-public_part :
    (ctx : OperationContext) (body : String) (source : ProvenanceSource) (id now : ℕ) (db db' : Db)
    (v : AnnouncementView)
    → create ctx body source id now db ≡ ok (v, db')
    → public_part db' ≡ public_part db
unfolding create log public_part bare_ledger only_published assert
create-public_part ctx body source id now db db' v h = ground arith

-- A draft that was saved changes no page, of this event or another.
pub create_shows_nothing :
    (percent : ℤ → ℤ → ℕ) (e : Event) (ctx : OperationContext) (body : String)
    (source : ProvenanceSource) (id now : ℕ) (db db' : Db) (v : AnnouncementView)
    → create ctx body source id now db ≡ ok (v, db')
    → project percent e db' ≡ project percent e db
create_shows_nothing percent e ctx body source id now db db' v h =
    sym (project-public_part percent e db')
    ∙ ap (project percent e) (create-public_part ctx body source id now db db' v h)
    ∙ project-public_part percent e db

only_published-archived :
    (ev id now : ℕ) (rows : List Announcement)
    → only_published (map_announcement ev id (moved archived now) rows)
      ≡ only_published (without ev id rows)
unfolding only_published map_announcement without moved
only_published-archived ev id now [] = refl
only_published-archived ev id now (a ∷ rows) =
    ground (arith, only_published-archived ev id now rows)

archive-public_part :
    (ctx : OperationContext) (id now : ℕ) (db db' : Db) (v : AnnouncementView)
    → archive ctx id now db ≡ ok (v, db')
    → public_part db'
      ≡ public_part (record db { announcements = without ctx.event_id id db.announcements })
unfolding archive transition bump_revision update_event log public_part bare_ledger assert
archive-public_part ctx id now db db' v h =
    ground (arith, only_published-archived ctx.event_id id now db.announcements)

-- After an announcement was archived, each page is what it would be if the announcement had been
-- deleted.
pub archive_withdraws :
    (percent : ℤ → ℤ → ℕ) (e : Event) (ctx : OperationContext) (id now : ℕ) (db db' : Db)
    (v : AnnouncementView)
    → archive ctx id now db ≡ ok (v, db')
    → project percent e db'
      ≡ project percent e (record db { announcements = without ctx.event_id id db.announcements })
archive_withdraws percent e ctx id now db db' v h =
    let gone : Db = record db { announcements = without ctx.event_id id db.announcements } in
    sym (project-public_part percent e db')
    ∙ ap (project percent e) (archive-public_part ctx id now db db' v h)
    ∙ project-public_part percent e gone
