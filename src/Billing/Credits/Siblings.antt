-- ===== src/Billing/Credits/Siblings.antt =====
-- Two events of one owner: the debits of one are stamped with the owner's account, and count
-- against the other.
use akabbo.Prelude.{ℕ, ◌≡◌, true, false, some, arith, Bool-cases, inl, inr, ◌∙◌}
use akabbo.Prelude.Int.{ℤ, pos, ◌+ℤ◌, ◌-ℤ◌, ltb_ℤ}
use akabbo.Billing.Tables.{Db, of_event, LedgerKind, reserve as reserve_kind, Key, has_key}
use akabbo.Billing.Entitlements.{owning_account_id, account_of, sms_balance}
use akabbo.Billing.Credits.{account_for, row_for, append, reserve}
use akabbo.Billing.Credits.Laws.{sum_amounts-insert_row, spent}

module _ (event other acc : ℕ) (db : Db) (owned : owning_account_id event db ≡ some acc)
    (owned_too : owning_account_id other db ≡ some acc) where
  sms_balance-append_sibling :
      (kind : LedgerKind) (amount : ℤ) (key : Key)
      → has_key key db.sms ≡ false
      → sms_balance (of_event other) (append (of_event event) kind amount key db)
        ≡ amount +ℤ sms_balance (of_event other) db
  unfolding append sms_balance account_of owning_account_id account_for
  sms_balance-append_sibling kind amount key new = ground (
    arith,
    sum_amounts-insert_row (some other) (owning_account_id other db)
        (row_for (of_event event) kind amount key db) db.sms new,
  )

  -- A granted reservation in one event under a new key takes its count out of the SMS balance of
  -- every event whose owner has the same billing account.
  pub reserve_charges_siblings :
      (count : ℕ) (key : Key)
      → has_key key db.sms ≡ false
      → (reserve (of_event event) count key db).1.granted ≡ true
      → sms_balance (of_event other) (reserve (of_event event) count key db).0
        ≡ sms_balance (of_event other) db -ℤ pos count
  unfolding reserve
  reserve_charges_siblings count key new =
      elim (Bool-cases (ltb_ℤ (sms_balance (of_event event) db) (pos count))) [
        | inl short ↦ rw short (λ e. cc e)
        | inr enough ↦ rw enough (λ e.
            sms_balance-append_sibling reserve_kind (pos 0 -ℤ pos count) key new
            ∙ spent (sms_balance (of_event other) db) count)
      ]
