-- ===== src/Team/Events/Laws.antt =====
-- The ceiling of active events, the owner of a new event, and the change of a status.
use akabbo.Prelude.{
  ℕ, ◌≤◌, ◌==◌, ==_refl, ◌≡◌, refl, true, some, List, [], ◌∷◌, arith, Bool-cases, inl, inr,
}
use akabbo.Prelude.Result.{ok, Result-cases}
use akabbo.Access.Permission.{owner, can, event_update}
use akabbo.Access.Gates.{OperationContext, EventStatus, active}
use akabbo.Billing.Tables.{Db as BillingDb}
use akabbo.Team.Tables.{Db, Env, Event, find_event, find_member, map_event}
use akabbo.Team.Members.{resolve_context}
use akabbo.Team.Events.{
  CreateEventInput, EventSummary, count_active, max_active_events, assert_can_create_event,
  create_event, set_status,
}

module _ (billing : BillingDb) (user : ℕ) (input : CreateEventInput) (env : Env) (db : Db) where
  -- An owner with a ceiling never gets beyond it by creating events: after a creation that succeeds
  -- the events that count are at most the ceiling.
  pub create_event_ceiling :
      {s : EventSummary} {db' : Db} {max : ℕ}
      → max_active_events user billing ≡ some max
      → create_event billing user input env db ≡ ok (s, db')
      → count_active user db'.events ≤ max
  unfolding create_event assert_can_create_event count_active
  create_event_ceiling limit h = ground arith

  -- The creator of an event stands in it as its owner, and the event is active.
  pub create_event_owner :
      {s : EventSummary} {db' : Db}
      → create_event billing user input env db ≡ ok (s, db')
      → resolve_context user s.id db'
        ≡ some (record { user_id = user; event_id = s.id; role = owner; status = active })
  unfolding create_event resolve_context find_event find_member
  create_event_owner h = ground (arith, ==_refl env.id, ==_refl user)

find_event-map_event :
    (id : ℕ) (g : Event → Event) (es : List Event) (e : Event)
    → ((x : Event) → (g x).id ≡ x.id)
    → find_event id es ≡ some e
    → find_event id (map_event id g es) ≡ some (g e)
unfolding find_event map_event
find_event-map_event id g [] e k h = cc
find_event-map_event id g (x ∷ xs) e k h = elim (Bool-cases (x.id == id)) [
  | inl same ↦ rw same (ground (arith, k x, find_event-map_event id g xs e k))
  | inr other ↦ rw other (ground (arith, k x, find_event-map_event id g xs e k))
]

-- Whoever may update an event that exists may give it any status, from any status, so that a closed
-- or an archived event is opened again however many active events its owner has.
pub set_status_any :
    (ctx : OperationContext) (status : EventStatus) (db : Db) (e : Event)
    → can ctx.role event_update ≡ true
    → find_event ctx.event_id db.events ≡ some e
    → (s : EventSummary) × (db' : Db) × (set_status ctx status db ≡ ok (s, db'))
      × (s.status ≡ status)
      × (find_event ctx.event_id db'.events ≡ some (record e { status = status }))
unfolding set_status
set_status_any ctx status db e may there = elim (Result-cases (set_status ctx status db)) [
  | inr (x, bad) ↦ absurd (ground (arith, there))
  | inl ((s, db'), h) ↦ (
    s,
    db',
    h,
    ground (arith, there),
    ground (
      arith,
      there,
      find_event-map_event ctx.event_id (λ x. record x { status = status }) db.events e (λ x. refl)
          there,
    ),
  )
]
