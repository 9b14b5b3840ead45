-- ===== src/Outbox.antt =====
-- libs/ledger/src/outbox-drain.service.ts: the worker claims a batch of messages and hands each to the
-- handler of its topic. The rows stand oldest first; the handlers are a parameter, over the rest of the
-- tables, `S`.
pub mod Liveness
pub mod Retry
mod Tests
use akabbo.Prelude.{
  ℕ, zero, suc, ◌+◌, ◌==◌, Bool, true, false, String, Option, none, some, List, [], ◌∷◌,
  if◌then◌else◌,
}

-- `OutboxStatus`
pub data OutboxStatus : Type 0 where
  pending processed failed : OutboxStatus

-- A row of `outbox` whose payload is an `A`.
pub record Row (A : Type 0) : Type 0 where
  pub id : ℕ
  pub event_id : ℕ
  pub topic : String
  pub payload : A
  pub status : OutboxStatus
  pub attempts : ℕ
  pub processed_at : Option ℕ

-- `OutboxMessage`
pub record OutboxMessage (A : Type 0) : Type 0 where
  pub id : ℕ
  pub event_id : ℕ
  pub topic : String
  pub payload : A

abbrev pub is_pending : OutboxStatus → Bool
is_pending pending = true
is_pending _ = false

-- `OutboxHandler`: whether it returned, and the tables that it leaves in either case.
abbrev pub OutboxHandler : Type 0 → Type 0 → Type 0
OutboxHandler A S = OutboxMessage A → S → Bool × S

-- `OutboxHandlerMap`
abbrev pub OutboxHandlerMap : Type 0 → Type 0 → Type 0
OutboxHandlerMap A S = String → Option (OutboxHandler A S)

-- `register`: `Object.assign` lets the later handler of a topic win.
unfoldable pub register :
    {A S : Type 0} → OutboxHandlerMap A S → OutboxHandlerMap A S → OutboxHandlerMap A S
register old new topic = elim (new topic) [ some h ↦ some h | none ↦ old topic ]

module _ {A : Type 0} where
  abbrev pub message_of : Row A → OutboxMessage A
  message_of r = record { id = r.id; event_id = r.event_id; topic = r.topic; payload = r.payload }

  abbrev pub mark : ℕ → Row A → Row A
  mark now r = record r { status = processed; processed_at = some now }

  -- The transaction that claims a batch: the oldest pending rows are marked and read.
  unfoldable pub claim : ℕ → ℕ → List (Row A) → List (Row A) × List (OutboxMessage A)
  claim now zero rows = (rows, [])
  claim now (suc n) [] = ([], [])
  claim now (suc n) (r ∷ rs) =
      let (taken_rows, taken) = claim now n rs in
      let (other_rows, other) = claim now (suc n) rs in
      if is_pending r.status
      then (mark now r ∷ taken_rows, message_of r ∷ taken)
      else (r ∷ other_rows, other)

  abbrev pub reopened : Row A → Row A
  reopened r = record r { status = pending; attempts = r.attempts + 1 }

  -- The update after a handler that threw.
  unfoldable pub reopen : ℕ → List (Row A) → List (Row A)
  reopen id [] = []
  reopen id (r ∷ rs) = (if r.id == id then reopened r else r) ∷ reopen id rs

module _ {A S : Type 0} where
  -- The loop of `drainOnce`: the rows, the tables, and how many messages were handled.
  unfoldable pub dispatch_all :
      OutboxHandlerMap A S → List (OutboxMessage A) → List (Row A) → S → (List (Row A) × S) × ℕ
  unfolding reopen
  dispatch_all handlers [] rows s = ((rows, s), 0)
  dispatch_all handlers (m ∷ ms) rows s = elim (handlers m.topic) [
    | none ↦ dispatch_all handlers ms rows s
    | some h ↦
        let (returned, s') = h m s in
        elim returned [
          | true ↦ let (st, n) = dispatch_all handlers ms rows s' in (st, suc n)
          | false ↦ dispatch_all handlers ms (reopen m.id rows) s'
        ]
  ]

  -- `drainOnce`
  unfoldable pub drain_once :
      OutboxHandlerMap A S → ℕ → ℕ → List (Row A) → S → (List (Row A) × S) × ℕ
  unfolding claim dispatch_all
  drain_once handlers batch now rows s =
      let (rows', claimed) = claim now batch rows in dispatch_all handlers claimed rows' s
