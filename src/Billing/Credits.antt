-- ===== src/Billing/Credits.antt =====
-- libs/billing/src/billing.service.ts: the append-only credit ledgers, reserve, commit and refund.
pub mod Laws
pub mod Settle
pub mod Siblings
use akabbo.Prelude.{ℕ, Bool, true, false, Option, none, some, List, ◌∷◌, if◌then◌else◌}
use akabbo.Prelude.Int.{ℤ, pos, negsuc, ◌-ℤ◌, ltb_ℤ}
use akabbo.Billing.Tables.{
  Db, Scope, LedgerKind, grant, reserve as reserve_kind, commit as commit_kind,
  refund as refund_kind, deduct, Key, commit_of, refund_of, CreditRow, has_key,
}
use akabbo.Billing.Entitlements.{owning_account_id, sms_balance, ai_balance}

-- `scope.accountId ?? (scope.eventId ? await owningAccountId(scope.eventId) : null)`
unfoldable pub account_for : Scope → Db → Option ℕ
account_for scope db = elim scope.account_id [
  | some id ↦ some id
  | none ↦ elim scope.event_id [ none ↦ none | some event ↦ owning_account_id event db ]
]

-- The insert: a key that is taken makes it a no-op (P2002 is caught).
unfoldable pub insert_row : CreditRow → List CreditRow → List CreditRow
insert_row r rows = if has_key r.idempotency_key rows then rows else r ∷ rows

abbrev pub row_for : Scope → LedgerKind → ℤ → Key → Db → CreditRow
row_for scope kind amount key db = record {
  event_id = scope.event_id;
  account_id = account_for scope db;
  kind = kind;
  amount = amount;
  idempotency_key = key;
}

-- `append`
unfoldable pub append : Scope → LedgerKind → ℤ → Key → Db → Db
append scope kind amount key db = record db {
  sms = insert_row (row_for scope kind amount key db) db.sms;
}

-- `appendAi`
unfoldable pub append_ai : Scope → LedgerKind → ℤ → Key → Db → Db
append_ai scope kind amount key db = record db {
  ai = insert_row (row_for scope kind amount key db) db.ai;
}

-- `grantCredits`
unfoldable pub grant_credits : Scope → ℤ → Key → Db → Db
unfolding append
grant_credits scope amount key db = append scope grant amount key db

-- `{ ok, balance }`
pub record Reservation : Type 0 where
  pub granted : Bool
  pub balance : ℤ

-- `reserve`
unfoldable pub reserve : Scope → ℕ → Key → Db → Db × Reservation
unfolding append
reserve scope count key db =
    let balance = sms_balance scope db in
    if ltb_ℤ balance (pos count) then (db, record { granted = false; balance = balance }) else (
      append scope reserve_kind (pos 0 -ℤ pos count) key db,
      record { granted = true; balance = balance -ℤ pos count },
    )

-- `commit`
unfoldable pub commit : Scope → Key → Db → Db
unfolding append
commit scope key db = append scope commit_kind (pos 0) (commit_of key) db

-- `refund`
unfoldable pub refund : Scope → ℕ → Key → Db → Db
unfolding append
refund scope count key db = append scope refund_kind (pos count) (refund_of key) db

-- `grantAiCredits`
unfoldable pub grant_ai_credits : Scope → ℤ → Key → Db → Db
unfolding append_ai
grant_ai_credits scope amount key db = append_ai scope grant amount key db

-- `deductAiCredit`
unfoldable pub deduct_ai_credit : Scope → Key → Db → Db
unfolding append_ai
deduct_ai_credit scope key db = append_ai scope deduct (negsuc 0) key db

-- `reserveAiCredit`
unfoldable pub reserve_ai_credit : Scope → Key → ℕ → Db → Db × Reservation
unfolding append_ai
reserve_ai_credit scope key count db =
    let balance = ai_balance scope db in
    if ltb_ℤ balance (pos count) then (db, record { granted = false; balance = balance }) else (
      append_ai scope reserve_kind (pos 0 -ℤ pos count) key db,
      record { granted = true; balance = balance -ℤ pos count },
    )

-- `commitAiCredit`
unfoldable pub commit_ai_credit : Scope → Key → Db → Db
unfolding append_ai
commit_ai_credit scope key db = append_ai scope commit_kind (pos 0) (commit_of key) db

-- `refundAiCredit`
unfoldable pub refund_ai_credit : Scope → Key → ℕ → Db → Db
unfolding append_ai
refund_ai_credit scope key count db = append_ai scope refund_kind (pos count) (refund_of key) db
