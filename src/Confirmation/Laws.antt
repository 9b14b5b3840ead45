-- ===== src/Confirmation/Laws.antt =====
-- A proposal is resolved at most once, by a confirmation or by a rejection.
use akabbo.Prelude.{
  ℕ, ◌==◌, ◌≡◌, ◌⊎◌, ap, ◌∙◌, refl, inl, inr, true, false, ◌&&◌, some, List, [], ◌∷◌, arith,
  Bool-cases, if◌then◌else◌,
}
use akabbo.Prelude.Result.{Error, Result, ok, err, bad_request, Result-cases}
use akabbo.Access.Gates.{OperationContext}
use akabbo.Ledger.Tables.{ProvenanceSource}
use akabbo.Confirmation.{
  Status, confirmed, is_pending, Row, find_row, map_row, resolved, resolve, reject, confirm,
  pending_of, list_pending,
}
use mathlib.Core.List.{reverse}

-- The rows of other ids.
unfoldable pub without : {A : Type 0} → ℕ → List (Row A) → List (Row A)
without id [] = []
without id (r ∷ rs) = if r.id == id then without id rs else r ∷ without id rs

module _ {A : Type 0} (ctx : OperationContext) (id now : ℕ) where
  pending_of-map_row :
      (rows : List (Row A))
      → pending_of ctx.event_id (map_row ctx.event_id id (resolved confirmed ctx.user_id now) rows)
        ≡ without id (pending_of ctx.event_id rows)
  unfolding pending_of map_row without
  pending_of-map_row [] = refl
  pending_of-map_row (r ∷ rs) = ground (arith, pending_of-map_row rs)

  pub listed_after :
      (rows : List (Row A))
      → let after = map_row ctx.event_id id (resolved confirmed ctx.user_id now) rows in
        list_pending ctx after ≡ ok (reverse (without id (pending_of ctx.event_id rows)), after)
  unfolding list_pending
  listed_after rows = rw (pending_of-map_row rows) refl

  find_row-map_row :
      (s : Status) (rows : List (Row A)) {r : Row A}
      → find_row ctx.event_id id rows ≡ some r
      → find_row ctx.event_id id (map_row ctx.event_id id (resolved s ctx.user_id now) rows)
        ≡ some (resolved s ctx.user_id now r)
  unfolding find_row map_row
  find_row-map_row s [] h = cc
  find_row-map_row s (x ∷ xs) {r} h = elim (Bool-cases (x.event_id == ctx.event_id && x.id == id)) [
    | inl same ↦ ground (arith, same)
    | inr other ↦ ground (arith, other, find_row-map_row s xs {r = r})
  ]

  resolve_pending :
      (s : Status) (rows : List (Row A)) {r : Row A}
      → find_row ctx.event_id id rows ≡ some r
      → is_pending r.status ≡ true
      → resolve s ctx id now rows
        ≡ ok (r, map_row ctx.event_id id (resolved s ctx.user_id now) rows)
  unfolding resolve
  resolve_pending s rows h open_still = ground arith

  -- A row that is no longer pending is refused.
  resolve_again :
      (s : Status) (rows : List (Row A)) {r : Row A}
      → find_row ctx.event_id id rows ≡ some r
      → is_pending r.status ≡ false
      → resolve s ctx id now rows ≡ err bad_request
  unfolding resolve
  resolve_again s rows h shut = ground arith

module _ {A S R : Type 0} (run : OperationContext → A → ProvenanceSource → S → Result (R × S))
    (ctx : OperationContext) (id now : ℕ) (rows : List (Row A)) (s : S) where
  confirm_shut :
      (other : OperationContext) (later : ℕ) (state : List (Row A) × S) {r : Row A}
      → find_row other.event_id id state.0 ≡ some r
      → is_pending r.status ≡ false
      → confirm run other id later state ≡ (err bad_request, state)
  unfolding confirm
  confirm_shut other later (rows', s') {r} h shut =
      rw (confirm, resolve_again other id later confirmed rows' {r = r} h shut) refl

  reject_shut :
      (other : OperationContext) (later : ℕ) (rows' : List (Row A)) {r : Row A}
      → find_row other.event_id id rows' ≡ some r
      → is_pending r.status ≡ false
      → reject other id later rows' ≡ err bad_request
  unfolding reject resolve
  reject_shut other later rows' {r} h shut = ground arith

  -- What a confirmation leaves of the row, and what it makes of the executor's answer.
  pub confirm-cases :
      {r : Row A}
      → find_row ctx.event_id id rows ≡ some r
      → is_pending r.status ≡ true
      → (find_row ctx.event_id id (confirm run ctx id now (rows, s)).1.0
          ≡ some (resolved confirmed ctx.user_id now r))
        × ((confirm run ctx id now (rows, s)).1.0
            ≡ map_row ctx.event_id id (resolved confirmed ctx.user_id now) rows)
        × (((e : Error) × (run ctx r.payload r.source s ≡ err e)
              × ((confirm run ctx id now (rows, s)).0 ≡ err e)
              × ((confirm run ctx id now (rows, s)).1.1 ≡ s))
            ⊎ ((x : R) × (s' : S) × (run ctx r.payload r.source s ≡ ok (x, s'))
                × ((confirm run ctx id now (rows, s)).0 ≡ ok x)
                × ((confirm run ctx id now (rows, s)).1.1 ≡ s')))
  unfolding confirm
  confirm-cases {r} there open_still =
      rw (confirm, resolve_pending ctx id now confirmed rows {r = r} there open_still)
        (elim (Result-cases (run ctx r.payload r.source s)) [
          | inr (e, bad) ↦ rw bad (
            find_row-map_row ctx id now confirmed rows {r = r} there,
            refl,
            inl (e, refl, refl, refl),
          )
          | inl ((x, s'), good) ↦ rw good (
            find_row-map_row ctx id now confirmed rows {r = r} there,
            refl,
            inr (x, s', refl, refl, refl),
          )
        ])

  -- Whatever the executor does, a proposal that was pending is confirmed afterwards, by the person who
  -- confirmed it and at that time, with its action as it was; it alone leaves the list of pending
  -- proposals; the executor has run its stored action on the tables as they were, its answer is the
  -- answer of the call, and the tables are what it left, or what they were where it threw.
  pub confirm_runs :
      {r : Row A}
      → find_row ctx.event_id id rows ≡ some r
      → is_pending r.status ≡ true
      → ((r' : Row A) × (find_row ctx.event_id id (confirm run ctx id now (rows, s)).1.0 ≡ some r')
          × (r'.status ≡ confirmed)
          × (r'.resolved_by_id ≡ some ctx.user_id)
          × (r'.resolved_at ≡ some now)
          × (r'.payload ≡ r.payload))
        × (list_pending ctx (confirm run ctx id now (rows, s)).1.0
            ≡ ok (
              reverse (without id (pending_of ctx.event_id rows)),
              (confirm run ctx id now (rows, s)).1.0,
            ))
        × (((e : Error) × (run ctx r.payload r.source s ≡ err e)
              × ((confirm run ctx id now (rows, s)).0 ≡ err e)
              × ((confirm run ctx id now (rows, s)).1.1 ≡ s))
            ⊎ ((x : R) × (s' : S) × (run ctx r.payload r.source s ≡ ok (x, s'))
                × ((confirm run ctx id now (rows, s)).0 ≡ ok x)
                × ((confirm run ctx id now (rows, s)).1.1 ≡ s')))
  confirm_runs {r} there open_still =
      let (row_is, rows_are, outcome) = confirm-cases {r = r} there open_still in
      ((_, row_is, refl, refl, refl, refl), rw rows_are (listed_after ctx id now rows), outcome)

  -- Once a confirmation got past its transaction, a second confirmation and a rejection, by whoever
  -- in the event and whenever, are refused, and neither changes anything: the action never runs again.
  pub confirm_once :
      (other : OperationContext) (later : ℕ) {r : Row A}
      → other.event_id ≡ ctx.event_id
      → find_row ctx.event_id id rows ≡ some r
      → is_pending r.status ≡ true
      → (confirm run other id later (confirm run ctx id now (rows, s)).1
          ≡ (err bad_request, (confirm run ctx id now (rows, s)).1))
        × (reject other id later (confirm run ctx id now (rows, s)).1.0 ≡ err bad_request)
  confirm_once other later {r} same there open_still =
      let after = (confirm-cases {r = r} there open_still).0 in
      (
        confirm_shut other later (confirm run ctx id now (rows, s)).1
            (ap (λ e. find_row e id (confirm run ctx id now (rows, s)).1.0) same ∙ after) refl,
        reject_shut other later (confirm run ctx id now (rows, s)).1.0
            (ap (λ e. find_row e id (confirm run ctx id now (rows, s)).1.0) same ∙ after) refl,
      )
