-- ===== src/Comms/Campaigns/Repeat.antt =====
-- A job that the outbox delivers twice.
use akabbo.Prelude.{ℕ, ◌≡◌, refl, ap, ◌∙◌, List, map}
use akabbo.Prelude.Result.{Result, ok}
use akabbo.Comms.Tables.{Db, pending}
use akabbo.Comms.Campaigns.{SmsSendRequest, SmsSendResult, request, send_pending, process_campaign}
use akabbo.Comms.Campaigns.Again.{settle_all-pending}
use akabbo.Comms.Campaigns.Cost.{send_pending_runs}

nothing_pending :
    (send : List SmsSendRequest → Result (List SmsSendResult)) (ev campaign now : ℕ) (db : Db)
    → pending ev campaign db.messages ≡ List.[]
    → process_campaign send ev campaign now db ≡ ok (tt, db)
unfolding process_campaign send_pending
nothing_pending send ev campaign now db e = rw (e, send_pending) refl

-- A run of the worker with a gateway that answers returns, and a second run over the tables that it
-- leaves, at any time and with any gateway, returns and changes nothing.
pub process_campaign_again :
    (reply : List SmsSendRequest → List SmsSendResult) (ev campaign now : ℕ) (db : Db)
    → (db' : Db) × (process_campaign (λ reqs. ok (reply reqs)) ev campaign now db ≡ ok (tt, db'))
      × ((send : List SmsSendRequest → Result (List SmsSendResult)) (later : ℕ)
          → process_campaign send ev campaign later db' ≡ ok (tt, db'))
unfolding process_campaign
process_campaign_again reply ev campaign now db =
    let queue = pending ev campaign db.messages in
    let results = reply (map request queue) in
    let (db', runs, _, messages) =
      send_pending_runs (λ reqs. ok (reply reqs)) ev campaign now queue results db refl in
    (
      db',
      runs,
      λ send later. nothing_pending send ev campaign later db' (
          ap (λ ms. pending ev campaign ms) messages
          ∙ settle_all-pending ev campaign now results db),
    )
