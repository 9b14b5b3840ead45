-- ===== src/Confirmation/Edit/Laws.antt =====
-- What an edited proposal leads to.
use akabbo.Prelude.{
  ℕ, ◌==◌, str_eq, ◌≡◌, refl, ◌⊎◌, true, false, ◌&&◌, String, Option, none, some, List, [], ◌∷◌,
  arith, Bool-cases, Option-cases, inl, inr, ap, sym, ◌∙◌,
}
use akabbo.Prelude.Result.{Result, ok, err}
use akabbo.Access.Gates.{OperationContext}
use akabbo.Ledger.Tables.{ProvenanceSource}
use akabbo.Confirmation.{Row, is_pending, find_row, map_row, confirm}
use akabbo.Ledger.Money.{matches_digits}
use akabbo.Confirmation.Laws.{confirm-cases}
use akabbo.Confirmation.Edit.{
  Action, UpdatePendingInput, is_editable, bad_amount, chosen, new_description, edited, edited_row,
  update,
}
use Prim.Native.Char.{Char}

-- The answer of a run, without the tables that it leaves.
abbrev pub answer : {S R : Type 0} → Result (R × S) → Result R
answer (err e) = err e
answer (ok (r, s)) = ok r

-- A field after an edit that may be missing: as it was, or as the edit has it.
abbrev pub Took : {T : Type 0} → Option T → Option T → Option T → Type 0
Took {T} edit old new = ((edit ≡ none) × (new ≡ old)) ⊎ ((t : T) × (edit ≡ some t) × (new ≡ some t))

-- The description is taken in the same way, but the empty text removes it.
abbrev pub TookText : Option String → Option String → Option String → Type 0
TookText edit old new =
    ((edit ≡ none) × (new ≡ old))
    ⊎ (((edit ≡ some "") × (new ≡ none))
        ⊎ ((c : Char) × (s : String) × (edit ≡ some (String.◌∷◌ c s))
            × (new ≡ some (String.◌∷◌ c s))))

-- The action `new` is the action `old` with the edits in it: a payment takes a name and an amount, and
-- the other intents a type and a description too. All else is as it was.
abbrev pub TookAll : {A : Type 0} → String → UpdatePendingInput → Action A → Action A → Type 0
TookAll intent edits old new =
    Took edits.display_name old.display_name new.display_name
    × Took edits.amount old.amount new.amount
    × (((str_eq intent "record_payment" ≡ true)
          × (new.type ≡ old.type)
          × (new.description ≡ old.description))
        ⊎ ((str_eq intent "record_payment" ≡ false)
            × Took edits.type old.type new.type
            × TookText edits.description old.description new.description))
    × (new.received_now ≡ old.received_now)
    × (new.rest ≡ old.rest)

chosen-Took : {T : Type 0} (edit old : Option T) → Took edit old (chosen edit old)
chosen-Took none old = inl (refl, refl)
chosen-Took (some t) old = inr (t, refl, refl)

new_description-TookText : (edit old : Option String) → TookText edit old (new_description edit old)
unfolding new_description
new_description-TookText none old = inl (refl, refl)
new_description-TookText (some String.[]) old = inr (inl (refl, refl))
new_description-TookText (some (String.◌∷◌ c s)) old = inr (inr (c, s, refl, refl))

edited-TookAll :
    {A : Type 0} (intent : String) (edits : UpdatePendingInput) (old : Action A)
    → TookAll intent edits old (edited intent edits old)
unfolding edited
edited-TookAll intent edits old = elim (Bool-cases (str_eq intent "record_payment")) [
  | inl payment ↦ rw payment (
    chosen-Took edits.display_name old.display_name,
    chosen-Took edits.amount old.amount,
    inl (refl, refl, refl),
    refl,
    refl,
  )
  | inr other ↦ rw other (
    chosen-Took edits.display_name old.display_name,
    chosen-Took edits.amount old.amount,
    inr (
      refl,
      chosen-Took edits.type old.type,
      new_description-TookText edits.description old.description,
    ),
    refl,
    refl,
  )
]

-- There is no amount, or it is all digits.
abbrev pub IsWhole : Option String → Type 0
IsWhole amount = (amount ≡ none) ⊎ ((t : String) × (amount ≡ some t) × (matches_digits t ≡ true))

bad_amount-IsWhole : (amount : Option String) → bad_amount amount ≡ false → IsWhole amount
unfolding bad_amount
bad_amount-IsWhole none h = inl refl
bad_amount-IsWhole (some t) h = inr (t, refl, ground arith)

-- The intents whose proposals may be edited.
abbrev pub IsEditable : String → Type 0
IsEditable intent =
    (str_eq intent "record_pledge" ≡ true)
    ⊎ ((str_eq intent "record_pledge_with_payment" ≡ true)
        ⊎ ((str_eq intent "record_direct_contribution" ≡ true)
            ⊎ (str_eq intent "record_payment" ≡ true)))

is_editable-IsEditable : (intent : String) → is_editable intent ≡ true → IsEditable intent
unfolding is_editable
is_editable-IsEditable intent h = ground arith

module _ {A : Type 0} (ctx : OperationContext) (id : ℕ) (edits : UpdatePendingInput)
    (rows rows' : List (Row (Action A))) (v : Row (Action A)) where
  -- What a row must be for its edit to go through, and what the edit leaves.
  update-inv :
      update ctx id edits rows ≡ ok (v, rows')
      → (r : Row (Action A)) × (find_row ctx.event_id id rows ≡ some r)
        × (is_pending r.status ≡ true)
        × (is_editable r.intent ≡ true)
        × (bad_amount v.payload.amount ≡ false)
        × (v ≡ edited_row edits r)
        × (rows' ≡ map_row ctx.event_id id (edited_row edits) rows)
  unfolding update
  update-inv h = elim (Option-cases (find_row ctx.event_id id rows)) [
    | inl missing ↦ absurd (ground arith)
    | inr (r, there) ↦ (
      r,
      there,
      ground arith,
      ground arith,
      unfold edited_row in ground arith,
      ground arith,
      ground arith,
    )
  ]

  find_row-edited :
      (xs : List (Row (Action A))) {r : Row (Action A)}
      → find_row ctx.event_id id xs ≡ some r
      → find_row ctx.event_id id (map_row ctx.event_id id (edited_row edits) xs)
        ≡ some (edited_row edits r)
  unfolding find_row map_row edited_row
  find_row-edited [] h = cc
  find_row-edited (x ∷ xs) {r} h = elim (Bool-cases (x.event_id == ctx.event_id && x.id == id)) [
    | inl same ↦ ground (arith, same)
    | inr other ↦ ground (arith, other, find_row-edited xs {r = r})
  ]

  -- An edit goes through only for a proposal of one of the four editable intents that is still pending,
  -- and only if the amount after it, where there is one, is all digits. A confirmation after it, by anyone in the event and at any time, runs the
  -- stored action with the edits in it, under the proposal's own source, and answers what that run
  -- answers: each field that the edit gives is replaced, the others are as they were, a payment keeps its
  -- type and its description, and an empty description removes the one that was there.
  pub update_then_confirm :
      {S R : Type 0} (run : OperationContext → Action A → ProvenanceSource → S → Result (R × S))
      (other : OperationContext) (now : ℕ) (s : S)
      → update ctx id edits rows ≡ ok (v, rows')
      → other.event_id ≡ ctx.event_id
      → (r : Row (Action A)) × (find_row ctx.event_id id rows ≡ some r)
        × (is_pending r.status ≡ true)
        × IsEditable r.intent
        × ((a : Action A) × TookAll r.intent edits r.payload a
            × IsWhole a.amount
            × ((confirm run other id now (rows', s)).0 ≡ answer (run other a r.source s)))
  unfolding edited_row
  update_then_confirm run other now s h same_event =
      let (r, there, open_still, editable, good, v_is, rows_are) = update-inv h in
      let edited_there : find_row other.event_id id rows' ≡ some (edited_row edits r) =
        rw (same_event, rows_are) (find_row-edited rows {r = r} there) in
      let (_, _, outcome) =
        confirm-cases run other id now rows' s {r = edited_row edits r} edited_there open_still in
      (
        r,
        there,
        open_still,
        is_editable-IsEditable r.intent editable,
        (
          edited r.intent edits r.payload,
          edited-TookAll r.intent edits r.payload,
          bad_amount-IsWhole (edited r.intent edits r.payload).amount (rw v_is at good),
          elim outcome [
            | inl (e, ran, answered, _) ↦ answered ∙ sym (ap answer ran)
            | inr (x, s', ran, answered, _) ↦ answered ∙ sym (ap answer ran)
          ],
        ),
      )
