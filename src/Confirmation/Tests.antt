-- ===== src/Confirmation/Tests.antt =====
-- Runs of a proposal: the action is a number that the executor adds to a counter.
use akabbo.Prelude.{ℕ, ◌+◌, ◌≡◌, ◌⊎◌, refl, none, some, List, [], ◌∷◌}
use akabbo.Prelude.Result.{Error, Result, ok, err, bad_request}
use akabbo.Access.Permission.{owner}
use akabbo.Access.Gates.{OperationContext, active}
use akabbo.Ledger.Tables.{ProvenanceSource, ai_from_chat}
use akabbo.Confirmation.{
  Row, pending, confirmed, find_row, confirm, reject, pending_of, list_pending,
}
use akabbo.Confirmation.Laws.{without, confirm_runs, confirm_once}
use akabbo.Prelude.{true}
use mathlib.Core.List.{reverse}
use akabbo.Prelude.Int.{pos}
use akabbo.Ledger.Money.{money_to_string, parse_money, string}
use akabbo.Confirmation.{is_pending}
use akabbo.Confirmation.Amount.{format_amount, strip_commas, parse_money-format_amount}
use akabbo.Confirmation.Edit.{Action, UpdatePendingInput, edited_row, update}
use akabbo.Confirmation.Edit.Laws.{answer, TookAll, IsWhole, IsEditable, update_then_confirm}

abbrev ctx : OperationContext
ctx = record { user_id = 7; event_id = 1; role = owner; status = active }

abbrev proposal : Row ℕ
proposal = record {
  id = 2;
  event_id = 1;
  intent = "record_payment";
  payload = 40;
  confidence = some 6;
  prompt = "Record 40?";
  source = ai_from_chat;
  status = pending;
  created_by_id = 7;
  resolved_by_id = none;
  resolved_at = none;
}

abbrev add : OperationContext → ℕ → ProvenanceSource → ℕ → Result (ℕ × ℕ)
add c amount source total = ok (amount, total + amount)

abbrev rows0 : List (Row ℕ)
rows0 = proposal ∷ []

there : find_row 1 2 rows0 ≡ some proposal
unfolding find_row
there = refl

confirm_runs_example :
    ((r' : Row ℕ) × (find_row 1 2 (confirm add ctx 2 100 (rows0, 5)).1.0 ≡ some r')
      × (r'.status ≡ confirmed)
      × (r'.resolved_by_id ≡ some 7)
      × (r'.resolved_at ≡ some 100)
      × (r'.payload ≡ 40))
    × (list_pending ctx (confirm add ctx 2 100 (rows0, 5)).1.0
        ≡ ok (reverse (without 2 (pending_of 1 rows0)), (confirm add ctx 2 100 (rows0, 5)).1.0))
    × (((e : Error) × (add ctx 40 ai_from_chat 5 ≡ err e)
          × ((confirm add ctx 2 100 (rows0, 5)).0 ≡ err e)
          × ((confirm add ctx 2 100 (rows0, 5)).1.1 ≡ 5))
        ⊎ ((x : ℕ) × (s' : ℕ) × (add ctx 40 ai_from_chat 5 ≡ ok (x, s'))
            × ((confirm add ctx 2 100 (rows0, 5)).0 ≡ ok x)
            × ((confirm add ctx 2 100 (rows0, 5)).1.1 ≡ s')))
confirm_runs_example = confirm_runs add ctx 2 100 rows0 5 {r = proposal} there refl

confirm_once_example :
    (confirm add ctx 2 200 (confirm add ctx 2 100 (rows0, 5)).1
      ≡ (err bad_request, (confirm add ctx 2 100 (rows0, 5)).1))
    × (reject ctx 2 200 (confirm add ctx 2 100 (rows0, 5)).1.0 ≡ err bad_request)
confirm_once_example = confirm_once add ctx 2 100 rows0 5 ctx 200 {r = proposal} refl there refl

abbrev action0 : Action ℕ
action0 = record {
  display_name = some "Sarah";
  amount = some "400";
  type = none;
  description = none;
  received_now = none;
  rest = 3;
}

abbrev scanned : Row (Action ℕ)
scanned = record {
  id = 2;
  event_id = 1;
  intent = "record_payment";
  payload = action0;
  confidence = some 6;
  prompt = "Record Sarah's payment of 400?";
  source = ai_from_chat;
  status = pending;
  created_by_id = 7;
  resolved_by_id = none;
  resolved_at = none;
}

abbrev edits0 : UpdatePendingInput
edits0 = record {
  display_name = none;
  amount = some "1400000";
  type = none;
  description = some "late";
}

-- A payment keeps no description, and its amount is grouped for the person who reviews it.
edited_runs : edited_row edits0 scanned ≡ record scanned {
  payload = record action0 { amount = some "1400000" };
  prompt = "Record Sarah's payment of 1,400,000?";
}
unfolding edited_row format_amount
edited_runs = refl

abbrev keep : OperationContext → Action ℕ → ProvenanceSource → ℕ → Result (Action ℕ × ℕ)
keep c action source total = ok (action, total + 1)

update_then_confirm_example :
    (r : Row (Action ℕ)) × (find_row 1 2 (scanned ∷ []) ≡ some r)
    × (is_pending r.status ≡ true)
    × IsEditable r.intent
    × ((a : Action ℕ) × TookAll r.intent edits0 r.payload a
        × IsWhole a.amount
        × ((confirm keep ctx 2 100 (edited_row edits0 scanned ∷ [], 5)).0
            ≡ answer (keep ctx a r.source 5)))
unfolding update akabbo.Ledger.Money.matches_digits
update_then_confirm_example =
    update_then_confirm ctx 2 edits0 (scanned ∷ []) (edited_row edits0 scanned ∷ [])
      (edited_row edits0 scanned) keep ctx 100 5 refl refl

parse_money-format_amount_example :
    parse_money (string (strip_commas (format_amount (money_to_string (pos 1400000)))))
    ≡ ok (pos 1400000)
parse_money-format_amount_example = parse_money-format_amount 1400000
