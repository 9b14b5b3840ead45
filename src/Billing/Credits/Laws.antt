-- ===== src/Billing/Credits/Laws.antt =====
-- How the credit operations move the balances that are read from the ledgers.
use akabbo.Prelude.{
  ℕ, ◌≡◌, refl, ◌⊎◌, inl, inr, true, false, ◌||◌, Option, some, List, arith, Bool-cases, sym,
  if◌then◌else◌,
}
use akabbo.Prelude.Int.{ℤ, pos, ◌+ℤ◌, ◌-ℤ◌, ◌≤ℤ◌, ◌<ℤ◌, ltb_ℤ, int_laws, -ℤ_parts}
use akabbo.Billing.Tables.{
  Db, of_event, LedgerKind, reserve as reserve_kind, Key, CreditRow, has_key, sum_amounts, matches,
}
use akabbo.Billing.Entitlements.{owning_account_id, account_of, sms_balance, ai_balance}
use akabbo.Billing.Credits.{
  insert_row, row_for, append, append_ai, Reservation, reserve, reserve_ai_credit,
}

-- A row of one event with its owner's account, and the scope of another or the same event.
pub sum_amounts-insert_row :
    (ev acc : Option ℕ) (r : CreditRow) (rows : List CreditRow)
    → has_key r.idempotency_key rows ≡ false
    → sum_amounts ev acc (insert_row r rows) ≡ (
        if matches ev r.event_id || matches acc r.account_id
        then r.amount +ℤ sum_amounts ev acc rows
        else sum_amounts ev acc rows)
unfolding sum_amounts insert_row
sum_amounts-insert_row ev acc r rows h = ground arith

-- What taking `count` out of a balance gives.
pub spent : (b : ℤ) (count : ℕ) → (pos 0 -ℤ pos count) +ℤ b ≡ b -ℤ pos count
spent b count = omega int_laws

covered : (b : ℤ) (count : ℕ) → ltb_ℤ b (pos count) ≡ false → pos 0 ≤ℤ b -ℤ pos count
covered b count h = ground (arith, -ℤ_parts b (pos count))

-- The outcome of a reservation of `count` credits from a balance that `read` reads: it is granted,
-- takes exactly its count and leaves no debt, or it is refused for want of credits and changes
-- nothing.
abbrev pub Reserves : (Db → ℤ) → ℕ → Db → Db × Reservation → Type 0
Reserves read count db (db', r) =
    ((r.granted ≡ true)
      × (read db' ≡ read db -ℤ pos count)
      × (pos 0 ≤ℤ read db')
      × (r.balance ≡ read db'))
    ⊎ ((r.granted ≡ false) × (db' ≡ db) × (read db <ℤ pos count))

module _ (event : ℕ) (db : Db) where
  -- An append under a new key moves the event's own balance by exactly the amount.
  pub sms_balance-append :
      (kind : LedgerKind) (amount : ℤ) (key : Key)
      → has_key key db.sms ≡ false
      → sms_balance (of_event event) (append (of_event event) kind amount key db)
        ≡ amount +ℤ sms_balance (of_event event) db
  unfolding append sms_balance account_of owning_account_id
  sms_balance-append kind amount key new = ground (
    arith,
    sum_amounts-insert_row (some event) (owning_account_id event db)
        (row_for (of_event event) kind amount key db) db.sms new,
  )

  pub ai_balance-append_ai :
      (kind : LedgerKind) (amount : ℤ) (key : Key)
      → has_key key db.ai ≡ false
      → ai_balance (of_event event) (append_ai (of_event event) kind amount key db)
        ≡ amount +ℤ ai_balance (of_event event) db
  unfolding append_ai ai_balance account_of owning_account_id
  ai_balance-append_ai kind amount key new = ground (
    arith,
    sum_amounts-insert_row (some event) (owning_account_id event db)
        (row_for (of_event event) kind amount key db) db.ai new,
  )

  -- A reservation of SMS credits under a new key is granted, takes exactly its count and leaves no
  -- debt, or it is refused because the event's balance is below the count, and changes nothing.
  pub reserve_never_overdraws :
      (count : ℕ) (key : Key)
      → has_key key db.sms ≡ false
      → Reserves (sms_balance (of_event event)) count db (reserve (of_event event) count key db)
  unfolding reserve
  reserve_never_overdraws count key new =
      elim (Bool-cases (ltb_ℤ (sms_balance (of_event event) db) (pos count))) [
        | inl short ↦ rw short (inr (refl, refl, ground arith))
        | inr enough ↦ rw enough (
            inl (
              refl,
              rw (sms_balance-append reserve_kind (pos 0 -ℤ pos count) key new)
                  (spent (sms_balance (of_event event) db) count),
              rw (sms_balance-append reserve_kind (pos 0 -ℤ pos count) key new, spent)
                  (covered (sms_balance (of_event event) db) count enough),
              rw (sms_balance-append reserve_kind (pos 0 -ℤ pos count) key new)
                  (sym (spent (sms_balance (of_event event) db) count)),
            ))
      ]

  -- A reservation of AI credits under a new key is granted, takes exactly its count and leaves no
  -- debt, or it is refused because the event's balance is below the count, and changes nothing.
  pub reserve_ai_credit_never_overdraws :
      (count : ℕ) (key : Key)
      → has_key key db.ai ≡ false
      → Reserves
          (ai_balance (of_event event))
          count
          db
          (reserve_ai_credit (of_event event) key count db)
  unfolding reserve_ai_credit
  reserve_ai_credit_never_overdraws count key new =
      elim (Bool-cases (ltb_ℤ (ai_balance (of_event event) db) (pos count))) [
        | inl short ↦ rw short (inr (refl, refl, ground arith))
        | inr enough ↦ rw enough (
            inl (
              refl,
              rw (ai_balance-append_ai reserve_kind (pos 0 -ℤ pos count) key new)
                  (spent (ai_balance (of_event event) db) count),
              rw (ai_balance-append_ai reserve_kind (pos 0 -ℤ pos count) key new, spent)
                  (covered (ai_balance (of_event event) db) count enough),
              rw (ai_balance-append_ai reserve_kind (pos 0 -ℤ pos count) key new)
                  (sym (spent (ai_balance (of_event event) db) count)),
            ))
      ]
