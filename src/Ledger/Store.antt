-- ===== src/Ledger/Store.antt =====
-- Reads and writes of the ledger's tables inside `runInEvent` (tenant-context.service.ts): row level
-- security shows a transaction only the rows of its event, so every read and update is by
-- event and id. audit.writer.ts and outbox.writer.ts are the last two writes.
pub mod Updates
pub mod Keys
use akabbo.Prelude.{
  ℕ, ◌==◌, str_eq, Bool, true, false, not, ◌&&◌, ◌||◌, String, Option, none, some, is_some, List,
  [], ◌∷◌, if◌then◌else◌,
}
use akabbo.Prelude.Int.{ℤ, pos, ◌+ℤ◌, eqb_ℤ}
use akabbo.Prelude.Result.{unique_violation, missing_record}
use akabbo.Prelude.Tx.{Tx, gets, found, modify, throw_if, ◌>>=◌, ◌>>◌}
use akabbo.Ledger.Tables.{Db, Person, Pledge, Fulfillment, AuditEvent, OutboxRow}

-- Is this the row `id` that the event sees?
abbrev pub is_row : ℕ → ℕ → ℕ → ℕ → Bool
is_row ev id row_event row_id = (row_event == ev) && (row_id == id)

-- `tx.person.findFirst({ where: { id } })`
unfoldable pub find_person : ℕ → ℕ → List Person → Option Person
find_person ev id [] = none
find_person ev id (p ∷ ps) = if is_row ev id p.event_id p.id then some p else find_person ev id ps

-- `tx.pledge.findFirst({ where: { id } })`
unfoldable pub find_pledge : ℕ → ℕ → List Pledge → Option Pledge
find_pledge ev id [] = none
find_pledge ev id (p ∷ ps) = if is_row ev id p.event_id p.id then some p else find_pledge ev id ps

-- `tx.fulfillment.findFirst({ where: { id } })`
unfoldable pub find_fulfillment : ℕ → ℕ → List Fulfillment → Option Fulfillment
find_fulfillment ev id [] = none
find_fulfillment ev id (f ∷ fs) =
    if is_row ev id f.event_id f.id then some f else find_fulfillment ev id fs

-- `tx.fulfillment.findFirst({ where: { idempotencyKey } })`
unfoldable pub find_key : ℕ → String → List Fulfillment → Option Fulfillment
find_key ev k [] = none
find_key ev k (f ∷ fs) =
    if (f.event_id == ev) && elim f.idempotency_key [ none ↦ false | some j ↦ str_eq j k ]
    then some f
    else find_key ev k fs

-- `tx.fulfillment.aggregate({ where: { pledgeId }, _sum: { value: true } })`, with no rows 0.
unfoldable pub sum_fulfillments : ℕ → ℕ → List Fulfillment → ℤ
sum_fulfillments ev pid [] = pos 0
sum_fulfillments ev pid (f ∷ fs) =
    if is_row ev pid f.event_id f.pledge_id
    then f.value +ℤ sum_fulfillments ev pid fs
    else sum_fulfillments ev pid fs

-- The same sum with `id: { not: excluded }` in the filter.
unfoldable pub sum_excluding : ℕ → ℕ → Option ℕ → List Fulfillment → ℤ
sum_excluding ev pid excluded [] = pos 0
sum_excluding ev pid excluded (f ∷ fs) =
    if is_row ev pid f.event_id f.pledge_id
      && elim excluded [ none ↦ true | some id ↦ not (f.id == id) ]
    then f.value +ℤ sum_excluding ev pid excluded fs
    else sum_excluding ev pid excluded fs

-- Is there an equal payment on the pledge, created at `since` or later?
unfoldable pub has_similar : ℕ → ℕ → ℤ → ℕ → List Fulfillment → Bool
has_similar ev pid v since [] = false
has_similar ev pid v since (f ∷ fs) =
    is_row ev pid f.event_id f.pledge_id && eqb_ℤ f.value v && akabbo.Prelude.leb since f.created_at
    || has_similar ev pid v since fs

unfoldable pub map_pledge : ℕ → ℕ → (Pledge → Pledge) → List Pledge → List Pledge
map_pledge ev id g [] = []
map_pledge ev id g (p ∷ ps) =
    (if is_row ev id p.event_id p.id then g p else p) ∷ map_pledge ev id g ps

unfoldable pub map_fulfillment :
    ℕ → ℕ → (Fulfillment → Fulfillment) → List Fulfillment → List Fulfillment
map_fulfillment ev id g [] = []
map_fulfillment ev id g (f ∷ fs) =
    (if is_row ev id f.event_id f.id then g f else f) ∷ map_fulfillment ev id g fs

-- `tx.person.create`
unfoldable pub create_person : Person → Tx Db (Unit {0})
create_person p = modify (λ db. record db { people = p ∷ db.people })

-- `tx.pledge.create`
unfoldable pub create_pledge_row : Pledge → Tx Db (Unit {0})
create_pledge_row p = modify (λ db. record db { pledges = p ∷ db.pledges })

-- `tx.fulfillment.create`, under `@@unique([eventId, idempotencyKey])`.
unfoldable pub create_fulfillment : Fulfillment → Tx Db (Unit {0})
create_fulfillment f = do
  taken ← gets (λ db. elim f.idempotency_key [
    | none ↦ false
    | some k ↦ is_some (find_key f.event_id k db.fulfillments)
  ])
  throw_if taken unique_violation
  modify (λ db. record db { fulfillments = f ∷ db.fulfillments })

-- `tx.pledge.update({ where: { id }, data })`: P2025 if the event sees no such row.
unfoldable pub update_pledge : ℕ → ℕ → (Pledge → Pledge) → Tx Db (Unit {0})
update_pledge ev id g = do
  row ← gets (λ db. find_pledge ev id db.pledges)
  found row missing_record
  modify (λ db. record db { pledges = map_pledge ev id g db.pledges })

-- `tx.fulfillment.update({ where: { id }, data })`
unfoldable pub update_fulfillment : ℕ → ℕ → (Fulfillment → Fulfillment) → Tx Db (Unit {0})
update_fulfillment ev id g = do
  row ← gets (λ db. find_fulfillment ev id db.fulfillments)
  found row missing_record
  modify (λ db. record db { fulfillments = map_fulfillment ev id g db.fulfillments })

-- `AuditWriter.write`
unfoldable pub write_audit : AuditEvent → Tx Db (Unit {0})
write_audit a = modify (λ db. record db { audit = a ∷ db.audit })

-- Is a confirmation of this fulfillment already enqueued?
unfoldable pub is_enqueued : ℕ → List OutboxRow → Bool
is_enqueued id [] = false
is_enqueued id (o ∷ os) = (o.fulfillment_id == id) || is_enqueued id os

-- `OutboxWriter.enqueue`: a key that is taken makes the call a no-op.
unfoldable pub enqueue : OutboxRow → Tx Db (Unit {0})
enqueue o = modify (λ db.
    if is_enqueued o.fulfillment_id db.outbox then db else record db { outbox = o ∷ db.outbox })
