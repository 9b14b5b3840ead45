-- ===== src/Comms/Campaigns/Cost.antt =====
-- A campaign from its queue to its last message: what it costs in the end.
use akabbo.Prelude.{
  ℕ, suc, ◌+◌, ◌-◌, ◌≤◌, ==_refl, ◌≡◌, refl, ◌∙◌, ◌⊎◌, inl, inr, String, List, [], ◌∷◌, map, ap,
  arith,
}
use akabbo.Prelude.Int.{ℤ, pos, ◌+ℤ◌, ◌-ℤ◌, ◌<ℤ◌, int_laws}
use akabbo.Prelude.Lists.{length}
use akabbo.Prelude.Result.{Result, ok}
use akabbo.Billing.Tables.{of_event, key_eq, message, CreditRow, commit_of, refund_of}
use akabbo.Billing.Entitlements.{sms_balance}
use akabbo.Billing.Credits.{reserve}
use akabbo.Billing.Credits.Laws.{reserve_never_overdraws}
use akabbo.Access.Permission.{sms_send}
use akabbo.Access.Gates.{OperationContext, gates}
use akabbo.Ledger.Tables as Ledger
use akabbo.Comms.Tables.{Db, Message, CampaignKind, pending}
use akabbo.Comms.Recipients.{Recipient}
use akabbo.Comms.Campaigns.{
  queue_all, new_message, new_campaign, dispatch, close_queue, process_campaign, send_pending,
  settle_all, request, SendResult, SmsSendRequest, SmsSendResult,
}
use akabbo.Comms.Campaigns.Queue.{
  Injective, IsNew, balance_of, has_key-reserve, reserve-IsNew, queued_one, queue_all-granted,
  queue_all-refused, queue_all-Charges,
}
use akabbo.Comms.Campaigns.Process.{
  NoneHas, Unsettled, accepted_count, accepted_count_bound, settle_all_balance,
}
use akabbo.Comms.Campaigns.Again.{settle_all-pending}

Unsettled-reserve :
    (ev id : ℕ) (ms : List Message) (db : akabbo.Billing.Tables.Db)
    → Unsettled ms db.sms
    → Unsettled ms (reserve (of_event ev) 1 (message id) db).0.sms
unfolding key_eq
Unsettled-reserve ev id [] db u = tt
Unsettled-reserve ev id (m ∷ ms) db (c, r, n, u) = (
  has_key-reserve (commit_of m.reserve_key) (message id) ev db refl c,
  has_key-reserve (refund_of m.reserve_key) (message id) ev db refl r,
  n,
  Unsettled-reserve ev id ms db u,
)

-- The pending messages can be settled, and none of them has a key that is still to be drawn.
abbrev Ready : ℕ → ℕ → (ℕ → ℕ) → ℕ → Db → Type 0
Ready ev campaign next k db =
    Unsettled (pending ev campaign db.messages) db.billing.sms
    × ((i : ℕ) → k ≤ i → NoneHas (message (next i)) (pending ev campaign db.messages))

module _ (ev campaign : ℕ) (body : String) (next : ℕ → ℕ) (inj : Injective next) where
  pending_one :
      (k : ℕ) (r : Recipient) (db : Db)
      → pending ev campaign (queued_one ev campaign body (next k) r db).messages
        ≡ new_message ev campaign body (next k) r ∷ pending ev campaign db.messages
  unfolding pending
  pending_one k r db = ground (arith, ==_refl ev, ==_refl campaign)

  queued_one-Ready :
      (k : ℕ) (r : Recipient) (db : Db)
      → IsNew next k db.billing.sms
      → Ready ev campaign next k db
      → Ready ev campaign next (suc k) (queued_one ev campaign body (next k) r db)
  unfolding key_eq
  queued_one-Ready k r db new (u, later) = rw (pending_one k r db) (
    (
      has_key-reserve (commit_of (message (next k))) (message (next k)) ev db.billing refl
          (new k (omega arith)).1,
      has_key-reserve (refund_of (message (next k))) (message (next k)) ev db.billing refl
          (new k (omega arith)).2,
      later k (omega arith),
      Unsettled-reserve ev (next k) (pending ev campaign db.messages) db.billing u,
    ),
    λ i le. (ground (arith, inj k i), later i (omega arith)),
  )

  counted :
      (k : ℕ) (r : Recipient) (db : Db) (n l : ℕ)
      → suc k + l
        ≡ n + length (pending ev campaign (queued_one ev campaign body (next k) r db).messages)
      → k + l ≡ n + length (pending ev campaign db.messages)
  unfolding length
  counted k r db n l = rw (pending_one k r db) (λ h. omega arith)

  -- The queue adds one message for each credit that it took, and all of them can be settled.
  queue_all-Ready :
      (k : ℕ) (rs : List Recipient) (db : Db)
      → IsNew next k db.billing.sms
      → Ready ev campaign next k db
      → let (db', n) = queue_all ev campaign body next k rs db in
        Unsettled (pending ev campaign db'.messages) db'.billing.sms
        × (k + length (pending ev campaign db'.messages)
            ≡ n + length (pending ev campaign db.messages))
  unfolding queue_all
  queue_all-Ready k [] db new (u, later) = (u, refl)
  queue_all-Ready k (r ∷ rs) db new ready =
      elim (reserve_never_overdraws ev db.billing 1 (message (next k)) (new k (omega arith)).0) [
        | inl (granted, _, _, _) ↦
            let one = queued_one ev campaign body (next k) r db in
            let (u, count) =
              queue_all-Ready (suc k) rs one (reserve-IsNew next k ev db.billing inj new)
                (queued_one-Ready k r db new ready) in
            rw (queue_all-granted ev campaign body next k r rs db granted)
              (u, counted k r db _ _ count)
        | inr (refused, same, poor) ↦
            rw (queue_all-refused ev campaign body next k r rs db refused same) (ready.0, refl)
      ]

module _ (send_bulk : List SmsSendRequest → Result (List SmsSendResult)) (ev campaign now : ℕ) where
  -- Where the gateway answers, the worker's run is its loop over the pending messages.
  pub send_pending_runs :
      (ms : List Message) (results : List SmsSendResult) (db : Db)
      → send_bulk (map request ms) ≡ ok results
      → (db' : Db) × (send_pending send_bulk ev campaign now ms db ≡ ok (tt, db'))
        × (db'.billing ≡ (settle_all ev now ms results db).0.billing)
        × (db'.messages ≡ (settle_all ev now ms results db).0.messages)
  unfolding send_pending settle_all
  send_pending_runs [] results db answered = (db, refl, refl, refl)
  send_pending_runs (m ∷ ms) results db answered = rw (answered, send_pending) (_, refl, refl, refl)

from_none : (l n : ℕ) (ms : List Message) → ms ≡ [] → 0 + l ≡ n + length ms → l ≡ n
unfolding length
from_none l n ms e h = ground arith

net : (b : ℤ) (n a : ℕ) → a ≤ n → pos (n - a) +ℤ (b -ℤ pos (n - 0)) ≡ b -ℤ pos a
net b n a h = omega int_laws

module _ (ctx : OperationContext) (kind : CampaignKind) (body : String)
    (resolve : ℕ → Ledger.Db → List Recipient) (id : ℕ) (next : ℕ → ℕ) (db : Db)
    (open_gates : gates ctx sms_send ≡ ok tt) (inj : Injective next)
    (new : IsNew next 0 db.billing.sms) where
  -- The loop's start, and what `dispatch` is in terms of the loop.
  abbrev started : Db
  started = record db { campaigns = new_campaign ctx kind body id ∷ db.campaigns }

  abbrev looped : Db × ℕ
  looped = queue_all ctx.event_id id body next 0 (resolve ctx.event_id db.ledger) started

  dispatch_runs :
      dispatch ctx kind body resolve id next db
      ≡ ok (
        record {
          campaign_id = id;
          queued = looped.1;
          skipped = length (resolve ctx.event_id db.ledger) - looped.1;
        },
        close_queue ctx.event_id id looped.1 looped.0,
      )
  unfolding dispatch
  dispatch_runs = ground arith

  -- A dispatch by someone who may send, in a writable event, with drawn ids that are new: it returns;
  -- every recipient is queued or skipped; the event's balance falls by exactly one credit for each
  -- message queued; and recipients are skipped only where no credit is left.
  pub dispatch_charges :
      (res : SendResult) × (db' : Db) × (dispatch ctx kind body resolve id next db ≡ ok (res, db'))
      × (res.queued + res.skipped ≡ length (resolve ctx.event_id db.ledger))
      × (balance_of ctx.event_id db' ≡ balance_of ctx.event_id db -ℤ pos res.queued)
      × ((res.skipped ≡ 0) ⊎ (balance_of ctx.event_id db' <ℤ pos 1))
  unfolding close_queue
  dispatch_charges =
      let (le, short, cost, why) =
        queue_all-Charges ctx.event_id id body next 0 (resolve ctx.event_id db.ledger) started inj
          new in
      (
        _,
        _,
        dispatch_runs,
        omega arith,
        cost ∙ ap (λ n. balance_of ctx.event_id db -ℤ pos n) (omega arith),
        elim why [ inl all ↦ inl (omega arith) | inr out ↦ inr out ],
      )

  -- A campaign with a new id, dispatched by someone who may send in a writable event with drawn ids
  -- that are new, and then run by the worker with a gateway that answers: both return; in the end the
  -- event has paid one credit for each message that the gateway accepted and none for the others; and
  -- no message of the campaign is left in the queue.
  pub campaign_costs_sent :
      (reply : List SmsSendRequest → List SmsSendResult) (now : ℕ)
      → pending ctx.event_id id db.messages ≡ []
      → (res : SendResult) × (db' : Db) × (db'' : Db) × (dispatch ctx kind body resolve id next db
          ≡ ok (res, db'))
        × (process_campaign (λ reqs. ok (reply reqs)) ctx.event_id id now db' ≡ ok (tt, db''))
        × (balance_of ctx.event_id db''
            ≡ balance_of ctx.event_id db
              -ℤ pos (
                  accepted_count res.queued
                    (reply (map request (pending ctx.event_id id db'.messages)))))
        × (pending ctx.event_id id db''.messages ≡ [])
  unfolding close_queue process_campaign length
  campaign_costs_sent reply now unused =
      let ev = ctx.event_id in
      let queue = pending ev id looped.0.messages in
      let results = reply (map request queue) in
      let (_, _, paid, _) =
        queue_all-Charges ev id body next 0 (resolve ev db.ledger) started inj new in
      let (unsettled, count) =
        queue_all-Ready ev id body next inj 0 (resolve ev db.ledger) started new
          (rw unused (tt, λ _ _. tt)) in
      let (db'', runs, billing, messages) =
        send_pending_runs (λ reqs. ok (reply reqs)) ev id now queue results
          (close_queue ev id looped.1 looped.0) refl in
      (
        _,
        _,
        db'',
        dispatch_runs,
        runs,
        ap (λ (b : akabbo.Billing.Tables.Db). sms_balance (of_event ev) b) billing
            ∙ settle_all_balance ev now queue results (close_queue ev id looped.1 looped.0)
                unsettled
            ∙ ap (λ b. pos (length queue - accepted_count (length queue) results) +ℤ b) paid
            ∙ ap
                (λ n.
                  pos (n - accepted_count n results) +ℤ (balance_of ev db -ℤ pos (looped.1 - 0)))
                (from_none _ _ (pending ev id started.messages) unused count)
            ∙ net (balance_of ev db) looped.1 (accepted_count looped.1 results)
                (accepted_count_bound looped.1 results),
        ap (λ ms. pending ev id ms) messages
            ∙ settle_all-pending ev id now results (close_queue ev id looped.1 looped.0),
      )
