-- ===== src/Confirmation/Edit.antt =====
-- libs/ai/src/confirmation.service.ts, `update`: the edit of a proposal before it is confirmed. An
-- action is its editable fields, where `none` is a field that is no text, and the rest of it, an `A`.
pub mod Laws
use akabbo.Prelude.{
  ℕ, str_eq, Bool, false, not, ◌||◌, String, Option, none, some, List, [], ◌∷◌, or_else,
  if◌then◌else◌,
}
use akabbo.Prelude.Result.{not_found, bad_request}
use akabbo.Prelude.Tx.{Tx, pure, gets, found, modify, throw_if, ◌>>=◌, ◌>>◌}
use akabbo.Access.Gates.{OperationContext}
use akabbo.Ledger.Money.{matches_digits}
use akabbo.Ledger.Tables.{PledgeType}
use akabbo.Confirmation.{Row, is_pending, find_row, map_row}
use akabbo.Confirmation.Amount.{format_amount}
use Prim.Native.String.{◌++◌ as append}

pub record Action (A : Type 0) : Type 0 where
  pub display_name : Option String
  pub amount : Option String
  pub type : Option PledgeType
  pub description : Option String
  pub received_now : Option String
  pub rest : A

-- `UpdatePendingInput`
pub record UpdatePendingInput : Type 0 where
  pub display_name : Option String
  pub amount : Option String
  pub type : Option PledgeType
  pub description : Option String

-- `EDITABLE_INTENTS`
unfoldable pub is_editable : String → Bool
is_editable intent =
    str_eq intent "record_pledge"
    || str_eq intent "record_pledge_with_payment"
    || str_eq intent "record_direct_contribution"
    || str_eq intent "record_payment"

-- `edits.x !== undefined ? edits.x : action.x`
abbrev pub chosen : {T : Type 0} → Option T → Option T → Option T
chosen none old = old
chosen (some t) old = some t

-- `edits.description || undefined`
unfoldable pub new_description : Option String → Option String → Option String
new_description none old = old
new_description (some String.[]) old = none
new_description (some (String.◌∷◌ c s)) old = some (String.◌∷◌ c s)

-- `typeof action.amount === 'string' && !/^\d+$/.test(action.amount)`
unfoldable pub bad_amount : Option String → Bool
bad_amount none = false
bad_amount (some s) = not (matches_digits s)

abbrev in_brackets : Option String → String
in_brackets none = ""
in_brackets (some String.[]) = ""
in_brackets (some (String.◌∷◌ c s)) = append " (" (append (String.◌∷◌ c s) ")")

abbrev amount_text : Option String → String
amount_text none = "0"
amount_text (some s) = format_amount s

module _ {A : Type 0} where
  -- The action with its edits.
  unfoldable pub edited : String → UpdatePendingInput → Action A → Action A
  unfolding new_description
  edited intent edits action =
      let payment = str_eq intent "record_payment" in
      record action {
        display_name = chosen edits.display_name action.display_name;
        amount = chosen edits.amount action.amount;
        type = if payment then action.type else chosen edits.type action.type;
        description =
            if payment
            then action.description
            else new_description edits.description action.description;
      }

  -- `renderPendingPrompt`
  unfoldable pub render_pending_prompt : String → Action A → String
  render_pending_prompt intent action =
      let name = or_else action.display_name "this contributor" in
      let amount = amount_text action.amount in
      let described = append amount (in_brackets action.description) in
      append "Record " (
        append name (
          if str_eq intent "record_pledge"
          then append "'s pledge of " (append described "?")
          else if str_eq intent "record_pledge_with_payment"
          then append "'s pledge of " (
              append described
                (append ", with " (append (amount_text action.received_now) " already received?")))
          else if str_eq intent "record_direct_contribution"
          then append "'s contribution of " (append described "?")
          else if str_eq intent "record_payment"
          then append "'s payment of " (append amount "?")
          else append "'s " (append described "?")))

  -- The row after an edit.
  unfoldable pub edited_row : UpdatePendingInput → Row (Action A) → Row (Action A)
  unfolding edited render_pending_prompt
  edited_row edits r = record r {
    payload = edited r.intent edits r.payload;
    prompt = render_pending_prompt r.intent (edited r.intent edits r.payload);
  }

  -- `update`
  unfoldable pub update :
      OperationContext → ℕ → UpdatePendingInput → Tx (List (Row (Action A))) (Row (Action A))
  unfolding is_editable bad_amount edited edited_row find_row map_row
  update ctx id edits = do
    there ← gets (find_row ctx.event_id id)
    row ← found there not_found
    throw_if (not (is_pending row.status)) bad_request
    throw_if (not (is_editable row.intent)) bad_request
    throw_if (bad_amount (edited row.intent edits row.payload).amount) bad_request
    modify (map_row ctx.event_id id (edited_row edits))
    pure (edited_row edits row)
