-- ===== src/Billing/Credits/Settle.antt =====
-- Settling a reservation: a commit keeps it spent, a refund gives it back, and repeating either
-- changes nothing.
use akabbo.Prelude.{
  ℕ, ==_refl, ◌≡◌, refl, true, false, List, arith, eq_iff, Bool-cases, inl, inr, ◌∙◌,
}
use akabbo.Prelude.Int.{ℤ, pos, ◌+ℤ◌, ◌-ℤ◌, ltb_ℤ, zero-+ℤ, int_laws}
use akabbo.Billing.Tables.{
  Db, Scope, of_event, LedgerKind, reserve as reserve_kind, commit as commit_kind,
  refund as refund_kind, Key, base, commit_of, refund_of, invoice_sms, invoice_ai, trial_sms,
  trial_ai, account_sms, account_ai, message, key_eq, CreditRow, has_key,
}
use akabbo.Billing.Entitlements.{sms_balance}
use akabbo.Billing.Credits.{insert_row, row_for, append, append_ai, reserve, commit, refund}
use akabbo.Billing.Credits.Laws.{spent, sms_balance-append}

pub key_eq_refl : (k : Key) → key_eq k k ≡ true
unfolding key_eq
key_eq_refl (base s) = (eq_iff s s).1 refl
key_eq_refl (commit_of k) = key_eq_refl k
key_eq_refl (refund_of k) = key_eq_refl k
key_eq_refl (invoice_sms n) = ==_refl n
key_eq_refl (invoice_ai n) = ==_refl n
key_eq_refl (trial_sms n) = ==_refl n
key_eq_refl (trial_ai n) = ==_refl n
key_eq_refl (account_sms n) = ==_refl n
key_eq_refl (account_ai n) = ==_refl n
key_eq_refl (message n) = ==_refl n

insert_row_twice :
    (r r' : CreditRow) (rows : List CreditRow)
    → r'.idempotency_key ≡ r.idempotency_key
    → insert_row r' (insert_row r rows) ≡ insert_row r rows
unfolding insert_row has_key
insert_row_twice r r' rows e = ground (arith, key_eq_refl r.idempotency_key)

-- A movement under a key that was used before changes nothing, on either ledger, whatever its
-- scope, its kind and its amount.
pub append_once :
    (s s' : Scope) (k k' : LedgerKind) (a a' : ℤ) (key : Key) (db : Db)
    → (append s' k' a' key (append s k a key db) ≡ append s k a key db)
      × (append_ai s' k' a' key (append_ai s k a key db) ≡ append_ai s k a key db)
unfolding append append_ai
append_once s s' k k' a a' key db = (
  ground (
    arith,
    insert_row_twice (row_for s k a key db) (row_for s' k' a' key (append s k a key db)) db.sms
        refl,
  ),
  ground (
    arith,
    insert_row_twice (row_for s k a key db) (row_for s' k' a' key (append_ai s k a key db)) db.ai
        refl,
  ),
)

commit_of_ne : (k : Key) → key_eq (commit_of k) k ≡ false
unfolding key_eq
commit_of_ne (commit_of k) = commit_of_ne k
commit_of_ne _ = refl

refund_of_ne : (k : Key) → key_eq (refund_of k) k ≡ false
unfolding key_eq
refund_of_ne (refund_of k) = refund_of_ne k
refund_of_ne _ = refl

pub has_key-append :
    (j key : Key) (s : Scope) (k : LedgerKind) (a : ℤ) (db : Db)
    → key_eq j key ≡ false
    → has_key j db.sms ≡ false
    → has_key j (append s k a key db).sms ≡ false
unfolding append insert_row has_key
has_key-append j key s k a db ne new = ground arith

restored : (b : ℤ) (count : ℕ) → pos count +ℤ (b -ℤ pos count) ≡ b
restored b count = omega int_laws

-- Under a key that no row of the SMS ledger carries, neither alone nor as a commit or a refund: a
-- granted reservation that is committed stays spent, and one that is refunded is given back in full.
pub reserve_settles :
    (event count : ℕ) (key : Key) (db : Db)
    → has_key key db.sms ≡ false
    → has_key (commit_of key) db.sms ≡ false
    → has_key (refund_of key) db.sms ≡ false
    → (reserve (of_event event) count key db).1.granted ≡ true
    → (sms_balance
          (of_event event)
          (commit (of_event event) key (reserve (of_event event) count key db).0)
        ≡ sms_balance (of_event event) db -ℤ pos count)
      × (sms_balance
            (of_event event)
            (refund (of_event event) count key (reserve (of_event event) count key db).0)
          ≡ sms_balance (of_event event) db)
unfolding reserve commit refund
reserve_settles event count key db new new_commit new_refund =
    elim (Bool-cases (ltb_ℤ (sms_balance (of_event event) db) (pos count))) [
      | inl short ↦ rw short (λ e. cc e)
      | inr enough ↦
          let db1 = append (of_event event) reserve_kind (pos 0 -ℤ pos count) key db in
          let paid : sms_balance (of_event event) db1
              ≡ sms_balance (of_event event) db -ℤ pos count =
            sms_balance-append event db reserve_kind (pos 0 -ℤ pos count) key new
            ∙ spent (sms_balance (of_event event) db) count in
          rw enough (λ e. (
            sms_balance-append event db1 commit_kind (pos 0) (commit_of key)
                  (has_key-append (commit_of key) key _ _ _ db (commit_of_ne key) new_commit)
                ∙ rw paid (zero-+ℤ _),
            sms_balance-append event db1 refund_kind (pos count) (refund_of key)
                  (has_key-append (refund_of key) key _ _ _ db (refund_of_ne key) new_refund)
                ∙ rw paid (restored (sms_balance (of_event event) db) count),
          ))
    ]
