-- ===== src/Confirmation.antt =====
-- libs/ai/src/confirmation.service.ts: proposals that a person confirms or rejects. The stored action
-- and the executor that runs it (`ToolExecutor`) are parameters.
pub mod Amount
pub mod Edit
pub mod Laws
mod Tests
use akabbo.Prelude.{
  ℕ, ◌==◌, Bool, true, false, not, ◌&&◌, String, Option, none, some, List, [], ◌∷◌, if◌then◌else◌,
}
use akabbo.Prelude.Result.{Result, ok, err, not_found, bad_request}
use akabbo.Prelude.Tx.{Tx, pure, gets, found, modify, throw_if, ◌>>=◌, ◌>>◌}
use akabbo.Access.Gates.{OperationContext}
use akabbo.Ledger.Tables.{ProvenanceSource, ai_from_chat}
use mathlib.Core.List.{reverse}

-- `ConfirmationStatus`
pub data Status : Type 0 where
  pending confirmed rejected expired : Status

abbrev pub is_pending : Status → Bool
is_pending pending = true
is_pending _ = false

-- A row of `pending_confirmation` whose stored action is an `A`.
pub record Row (A : Type 0) : Type 0 where
  pub id : ℕ
  pub event_id : ℕ
  pub intent : String
  pub payload : A
  pub confidence : Option ℕ
  pub prompt : String
  pub source : ProvenanceSource
  pub status : Status
  pub created_by_id : ℕ
  pub resolved_by_id : Option ℕ
  pub resolved_at : Option ℕ

module _ {A : Type 0} where
  -- `tx.pendingConfirmation.findFirst({ where: { id } })` inside the event.
  unfoldable pub find_row : ℕ → ℕ → List (Row A) → Option (Row A)
  find_row ev id [] = none
  find_row ev id (r ∷ rs) = if r.event_id == ev && r.id == id then some r else find_row ev id rs

  unfoldable pub map_row : ℕ → ℕ → (Row A → Row A) → List (Row A) → List (Row A)
  map_row ev id g [] = []
  map_row ev id g (r ∷ rs) =
      (if r.event_id == ev && r.id == id then g r else r) ∷ map_row ev id g rs

  abbrev pub resolved : Status → ℕ → ℕ → Row A → Row A
  resolved s user now r = record r {
    status = s;
    resolved_by_id = some user;
    resolved_at = some now;
  }

  -- `create`
  unfoldable pub create :
      OperationContext → ℕ → String → A → Option ℕ → String → Tx (List (Row A)) (Row A)
  create ctx id intent action confidence prompt = do
    let row : Row A = record {
      id = id;
      event_id = ctx.event_id;
      intent = intent;
      payload = action;
      confidence = confidence;
      prompt = prompt;
      source = ai_from_chat;
      status = pending;
      created_by_id = ctx.user_id;
      resolved_by_id = none;
      resolved_at = none;
    }
    modify (λ rows. row ∷ rows)
    pure row

  -- The transaction of `confirm` and of `reject`: a pending row is resolved, once.
  unfoldable pub resolve : Status → OperationContext → ℕ → ℕ → Tx (List (Row A)) (Row A)
  unfolding find_row map_row
  resolve s ctx id now = do
    there ← gets (find_row ctx.event_id id)
    row ← found there not_found
    throw_if (not (is_pending row.status)) bad_request
    modify (map_row ctx.event_id id (resolved s ctx.user_id now))
    pure row

  -- `reject`
  unfoldable pub reject : OperationContext → ℕ → ℕ → Tx (List (Row A)) (ℕ × Status)
  reject ctx id now = do resolve rejected ctx id now; pure (id, rejected)

  -- `confirm`: the row is resolved in a transaction of its own, and then the executor runs the stored
  -- action on the rest of the tables, `S`. What the executor throws does not undo the first part.
  unfoldable pub confirm :
      {S R : Type 0}
      → (OperationContext → A → ProvenanceSource → S → Result (R × S))
      → OperationContext
      → ℕ
      → ℕ
      → List (Row A) × S
      → Result R × (List (Row A) × S)
  confirm run ctx id now (rows, s) = elim (resolve confirmed ctx id now rows) [
    | err e ↦ (err e, (rows, s))
    | ok (row, rows') ↦ elim (run ctx row.payload row.source s) [
      | err e ↦ (err e, (rows', s))
      | ok (r, s') ↦ (ok r, (rows', s'))
    ]
  ]

  unfoldable pub pending_of : ℕ → List (Row A) → List (Row A)
  pending_of ev [] = []
  pending_of ev (r ∷ rs) =
      let rest = pending_of ev rs in
      if (r.event_id == ev) && is_pending r.status then r ∷ rest else rest

  -- `listPending`; the rows stand newest first, and the list begins with the oldest.
  unfoldable pub list_pending : OperationContext → Tx (List (Row A)) (List (Row A))
  unfolding pending_of
  list_pending ctx = gets (λ rows. reverse (pending_of ctx.event_id rows))
