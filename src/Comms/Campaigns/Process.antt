-- ===== src/Comms/Campaigns/Process.antt =====
-- The worker's loop: its counts and the balance that it leaves.
use akabbo.Prelude.{
  ℕ, zero, suc, ◌+◌, ◌-◌, ◌≤◌, ◌≡◌, refl, sym, ◌∙◌, inl, inr, false, List, [], ◌∷◌, ap, arith,
  Option-cases,
}
use akabbo.Prelude.Int.{ℤ, pos, ◌+ℤ◌, int_laws, zero-+ℤ}
use akabbo.Prelude.Lists.{length}
use akabbo.Billing.Tables.{
  of_event, Key, key_eq, has_key, CreditRow, commit_of, refund_of, commit as commit_kind,
  refund as refund_kind,
}
use akabbo.Billing.Credits.{commit, refund}
use akabbo.Billing.Credits.Laws.{sms_balance-append}
use akabbo.Billing.Credits.Settle.{has_key-append}
use akabbo.Comms.Tables.{Db, Message}
use akabbo.Comms.Campaigns.{SmsSendResult, accepted, rest_of, is_sent, settle, settle_all}
use akabbo.Comms.Campaigns.Queue.{balance_of}

-- None of the messages has the key.
abbrev pub NoneHas : Key → List Message → Type 0
NoneHas k [] = Unit {0}
NoneHas k (m ∷ ms) = (key_eq m.reserve_key k ≡ false) × NoneHas k ms

-- The messages have different keys, and none of them is settled in the ledger.
abbrev pub Unsettled : List Message → List CreditRow → Type 0
Unsettled [] rows = Unit {0}
Unsettled (m ∷ ms) rows =
    (has_key (commit_of m.reserve_key) rows ≡ false)
    × (has_key (refund_of m.reserve_key) rows ≡ false)
    × NoneHas m.reserve_key ms
    × Unsettled ms rows

-- How many of the first `n` results are accepted.
unfoldable pub accepted_count : ℕ → List SmsSendResult → ℕ
accepted_count zero results = 0
accepted_count (suc n) results = is_sent results + accepted_count n (rest_of results)

pub accepted_count_bound : (n : ℕ) (results : List SmsSendResult) → accepted_count n results ≤ n
unfolding accepted_count
accepted_count_bound zero results = omega arith
accepted_count_bound (suc n) results = ground (arith, accepted_count_bound n (rest_of results))

-- The loop counts each message once, as sent or as failed.
pub settle_all_counts :
    (ev now : ℕ) (ms : List Message) (results : List SmsSendResult) (db : Db)
    → (settle_all ev now ms results db).1
      ≡ (accepted_count (length ms) results, length ms - accepted_count (length ms) results)
unfolding settle_all accepted_count length
settle_all_counts ev now [] results db = refl
settle_all_counts ev now (m ∷ ms) results db =
    let tail = settle_all_counts ev now ms (rest_of results) (settle ev now results m db) in
    ground (arith, tail, accepted_count_bound (length ms) (rest_of results))

Unsettled-commit :
    (ev : ℕ) (k : Key) (ms : List Message) (db : akabbo.Billing.Tables.Db)
    → NoneHas k ms
    → Unsettled ms db.sms
    → Unsettled ms (commit (of_event ev) k db).sms
unfolding commit key_eq
Unsettled-commit ev k [] db d u = tt
Unsettled-commit ev k (m ∷ ms) db (ne, d) (c, r, n, u) = (
  has_key-append (commit_of m.reserve_key) (commit_of k) _ _ _ db ne c,
  has_key-append (refund_of m.reserve_key) (commit_of k) _ _ _ db refl r,
  n,
  Unsettled-commit ev k ms db d u,
)

Unsettled-refund :
    (ev : ℕ) (k : Key) (ms : List Message) (db : akabbo.Billing.Tables.Db)
    → NoneHas k ms
    → Unsettled ms db.sms
    → Unsettled ms (refund (of_event ev) 1 k db).sms
unfolding refund key_eq
Unsettled-refund ev k [] db d u = tt
Unsettled-refund ev k (m ∷ ms) db (ne, d) (c, r, n, u) = (
  has_key-append (commit_of m.reserve_key) (refund_of k) _ _ _ db refl c,
  has_key-append (refund_of m.reserve_key) (refund_of k) _ _ _ db ne r,
  n,
  Unsettled-refund ev k ms db d u,
)

-- One round: a message that was sent costs nothing more, one that failed gets its credit back.
settle_balance :
    (ev now : ℕ) (results : List SmsSendResult) (m : Message) (ms : List Message) (db : Db)
    → Unsettled (m ∷ ms) db.billing.sms
    → (balance_of ev (settle ev now results m db) ≡ pos (1 - is_sent results) +ℤ balance_of ev db)
      × Unsettled ms (settle ev now results m db).billing.sms
unfolding settle commit refund
settle_balance ev now results m ms db (c, r, n, u) = elim (Option-cases (accepted results)) [
  | inl none_e ↦
      rw (none_e, settle, is_sent)
        (
          sms_balance-append ev db.billing refund_kind (pos 1) (refund_of m.reserve_key) r,
          Unsettled-refund ev m.reserve_key ms db.billing n u,
        )
  | inr (a, some_e) ↦
      rw (some_e, settle, is_sent)
        (
          sms_balance-append ev db.billing commit_kind (pos 0) (commit_of m.reserve_key) c,
          Unsettled-commit ev m.reserve_key ms db.billing n u,
        )
]

is_sent_bound : (results : List SmsSendResult) → is_sent results ≤ 1
is_sent_bound results = ground arith

two_parts :
    (s a l : ℕ) (b : ℤ)
    → s ≤ 1
    → a ≤ l
    → pos (l - a) +ℤ (pos (1 - s) +ℤ b) ≡ pos (suc l - (s + a)) +ℤ b
two_parts s a l b h h2 = omega int_laws

module _ (ev now : ℕ) where
  -- The loop gives back exactly the credits of the messages that failed.
  pub settle_all_balance :
      (ms : List Message) (results : List SmsSendResult) (db : Db)
      → Unsettled ms db.billing.sms
      → balance_of ev (settle_all ev now ms results db).0
        ≡ pos (length ms - accepted_count (length ms) results) +ℤ balance_of ev db
  unfolding settle_all accepted_count length
  settle_all_balance [] results db u = sym (zero-+ℤ (balance_of ev db))
  settle_all_balance (m ∷ ms) results db u =
      let (now_paid, later) = settle_balance ev now results m ms db u in
      settle_all_balance ms (rest_of results) (settle ev now results m db) later
      ∙ ap (λ b. pos (length ms - accepted_count (length ms) (rest_of results)) +ℤ b) now_paid
      ∙ two_parts (is_sent results) (accepted_count (length ms) (rest_of results)) (length ms)
          (balance_of ev db) (is_sent_bound results)
          (accepted_count_bound (length ms) (rest_of results))
