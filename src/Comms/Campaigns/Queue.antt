-- ===== src/Comms/Campaigns/Queue.antt =====
-- What the loop of `dispatch` reserves, and what it leaves behind.
use akabbo.Prelude.{
  ℕ, suc, ◌+◌, ◌-◌, ◌≤◌, ◌==◌, ◌≡◌, refl, ◌∙◌, ◌⊎◌, inl, inr, true, false, List, [], String, ◌∷◌,
  ap, arith,
}
use akabbo.Prelude.Int.{ℤ, pos, ◌-ℤ◌, ◌<ℤ◌, int_laws}
use akabbo.Prelude.Lists.{length}
use akabbo.Billing.Tables.{of_event, Key, key_eq, message, has_key, CreditRow, commit_of, refund_of}
use akabbo.Billing.Entitlements.{sms_balance}
use akabbo.Billing.Credits.{reserve}
use akabbo.Billing.Credits.Laws.{reserve_never_overdraws}
use akabbo.Billing.Credits.Settle.{has_key-append}
use akabbo.Comms.Tables.{Db}
use akabbo.Comms.Recipients.{Recipient}
use akabbo.Comms.Campaigns.{queue_all, new_message}

-- The drawn ids are distinct.
abbrev pub Injective : (ℕ → ℕ) → Type 0
Injective next = (i j : ℕ) → next i ≡ next j → i ≡ j

-- No key that is drawn from the k-th on is in the ledger, alone or settled.
abbrev pub IsNew : (ℕ → ℕ) → ℕ → List CreditRow → Type 0
IsNew next k rows =
    (i : ℕ)
    → k ≤ i
    → (has_key (message (next i)) rows ≡ false)
      × (has_key (commit_of (message (next i))) rows ≡ false)
      × (has_key (refund_of (message (next i))) rows ≡ false)

abbrev pub balance_of : ℕ → Db → ℤ
balance_of ev db = sms_balance (of_event ev) db.billing

-- What a queue of recipients costs, and when it stops early.
abbrev pub Charges : ℕ → ℕ → List Recipient → Db → Db × ℕ → Type 0
Charges ev k rs db (db', n) =
    (k ≤ n)
    × (n ≤ k + length rs)
    × (balance_of ev db' ≡ balance_of ev db -ℤ pos (n - k))
    × ((n ≡ k + length rs) ⊎ (balance_of ev db' <ℤ pos 1))

pub has_key-reserve :
    (j key : Key) (ev : ℕ) (db : akabbo.Billing.Tables.Db)
    → key_eq j key ≡ false
    → has_key j db.sms ≡ false
    → has_key j (reserve (of_event ev) 1 key db).0.sms ≡ false
unfolding reserve
has_key-reserve j key ev db ne new = ground (
  arith,
  has_key-append j key (of_event ev) akabbo.Billing.Tables.reserve (pos 0 -ℤ pos 1) db ne new,
)

-- One reservation leaves the later keys new.
pub reserve-IsNew :
    (next : ℕ → ℕ) (k ev : ℕ) (db : akabbo.Billing.Tables.Db)
    → Injective next
    → IsNew next k db.sms
    → IsNew next (suc k) (reserve (of_event ev) 1 (message (next k)) db).0.sms
unfolding key_eq
reserve-IsNew next k ev db inj new i le =
    let ne : (next i == next k) ≡ false = ground (arith, inj i k) in
    let (a, b, c) = new i (omega arith) in
    (
      has_key-reserve (message (next i)) (message (next k)) ev db ne a,
      has_key-reserve (commit_of (message (next i))) (message (next k)) ev db refl b,
      has_key-reserve (refund_of (message (next i))) (message (next k)) ev db refl c,
    )

one_more : (b : ℤ) (k n : ℕ) → suc k ≤ n → b -ℤ pos 1 -ℤ pos (n - suc k) ≡ b -ℤ pos (n - k)
one_more b k n h = omega int_laws

nothing : (b : ℤ) (k : ℕ) → b ≡ b -ℤ pos (k - k)
nothing b k = omega int_laws

-- The tables after one round of the loop that was granted its credit.
abbrev pub queued_one : ℕ → ℕ → String → ℕ → Recipient → Db → Db
queued_one ev campaign body id r db = record db {
  billing = (reserve (of_event ev) 1 (message id) db.billing).0;
  messages = new_message ev campaign body id r ∷ db.messages;
}

module _ (ev campaign : ℕ) (body : String) (next : ℕ → ℕ) where
  pub queue_all-granted :
      (k : ℕ) (r : Recipient) (rs : List Recipient) (db : Db)
      → (reserve (of_event ev) 1 (message (next k)) db.billing).1.granted ≡ true
      → queue_all ev campaign body next k (r ∷ rs) db
        ≡ queue_all ev campaign body next (suc k) rs (queued_one ev campaign body (next k) r db)
  unfolding queue_all
  queue_all-granted k r rs db e = ground arith

  pub queue_all-refused :
      (k : ℕ) (r : Recipient) (rs : List Recipient) (db : Db)
      → (reserve (of_event ev) 1 (message (next k)) db.billing).1.granted ≡ false
      → (reserve (of_event ev) 1 (message (next k)) db.billing).0 ≡ db.billing
      → queue_all ev campaign body next k (r ∷ rs) db ≡ (db, k)
  unfolding queue_all
  queue_all-refused k r rs db e same = ground arith

  -- Queueing takes one credit for each message, and stops early only where no credit is left.
  pub queue_all-Charges :
      (k : ℕ) (rs : List Recipient) (db : Db)
      → Injective next
      → IsNew next k db.billing.sms
      → Charges ev k rs db (queue_all ev campaign body next k rs db)
  unfolding queue_all length
  queue_all-Charges k [] db inj new =
      (omega arith, omega arith, nothing (balance_of ev db) k, inl (omega arith))
  queue_all-Charges k (r ∷ rs) db inj new =
      elim (reserve_never_overdraws ev db.billing 1 (message (next k)) (new k (omega arith)).0) [
        | inl (granted, paid, _, _) ↦
            let one = queued_one ev campaign body (next k) r db in
            let (le, short, cost, why) =
              queue_all-Charges (suc k) rs one inj (reserve-IsNew next k ev db.billing inj new) in
            rw (queue_all-granted k r rs db granted) (
              omega arith,
              omega arith,
              cost
                  ∙ ap (λ b. b -ℤ pos ((queue_all ev campaign body next (suc k) rs one).1 - suc k))
                      paid
                  ∙ one_more (balance_of ev db) k _ le,
              elim why [ inl all ↦ inl (omega arith) | inr out ↦ inr out ],
            )
        | inr (refused, same, poor) ↦
            rw (queue_all-refused k r rs db refused same)
              (omega arith, omega arith, nothing (balance_of ev db) k, inr poor)
      ]
