-- ===== src/Comms/Tests.antt =====
-- Runs of campaigns on small tables.
use akabbo.Prelude.{ℕ, ◌+◌, ◌≡◌, ◌⊎◌, refl, none, some, List, [], ◌∷◌, arith, map}
use akabbo.Prelude.Int.{pos, ◌-ℤ◌, ◌<ℤ◌}
use akabbo.Prelude.Lists.{length}
use akabbo.Prelude.Result.{Result, ok, err}
use akabbo.Access.Permission.{owner, sms_send}
use akabbo.Access.Gates.{OperationContext, active, gates}
use akabbo.Billing.Tables.{CreditRow, grant, base, of_event}
use akabbo.Billing.Tables as Billing
use akabbo.Ledger.Tables as Ledger
use akabbo.Ledger.Tables.{human_typed}
use akabbo.Comms.Tables.{Db, announcement, pending}
use akabbo.Comms.Recipients.{Recipient, announcement_recipients, personalise}
use akabbo.Comms.Campaigns.{
  SendResult, SmsSendRequest, SmsSendResult, sent_there, failed_there, dispatch, process_campaign,
  request,
}
use akabbo.Comms.Campaigns.Queue.{Injective, IsNew, balance_of}
use akabbo.Comms.Campaigns.Process.{accepted_count}
use akabbo.Comms.Campaigns.Cost.{dispatch_charges, campaign_costs_sent}
use akabbo.Comms.Campaigns.Repeat.{process_campaign_again}

abbrev person : ℕ → Ledger.Person
person id = record {
  id = id;
  event_id = 1;
  display_name = "Sarah";
  phone = some "0700";
  user_id = none;
  source = human_typed;
  created_by = 7;
}

abbrev credits : CreditRow
credits = record {
  event_id = some 1;
  account_id = none;
  kind = grant;
  amount = pos 2;
  idempotency_key = base "g";
}

abbrev db0 : Db
db0 = record {
  ledger = record {
    people = person 1 ∷ person 2 ∷ person 3 ∷ [];
    pledges = [];
    fulfillments = [];
    audit = [];
    outbox = [];
  };
  billing = record {
    plans = [];
    accounts = [];
    events = [];
    grants = [];
    invoices = [];
    sms = credits ∷ [];
    ai = [];
  };
  campaigns = [];
  messages = [];
  jobs = [];
}

abbrev ctx : OperationContext
ctx = record { user_id = 7; event_id = 1; role = owner; status = active }

abbrev everyone : ℕ → Ledger.Db → List Recipient
everyone = announcement_recipients (λ rs. rs) []

abbrev draw : ℕ → ℕ
draw k = 100 + k

-- The gateway takes the first message and refuses the second.
abbrev one_of_two : List SmsSendRequest → List SmsSendResult
one_of_two reqs =
    record { provider_message_id = "x"; status = sent_there; segments = 1; error = none }
    ∷ record { provider_message_id = ""; status = failed_there; segments = 0; error = none }
    ∷ []

abbrev after : {A : Type 0} → Result (A × Db) → Db → Db
after (ok (a, db)) old = db
after (err e) old = old

-- The tables with two messages in the queue.
abbrev db1 : Db
db1 = after (dispatch ctx announcement "Hi {name}" everyone 50 draw db0) db0

personalised : personalise "Hi {NAME}!" "Sarah" ≡ "Hi Sarah!"
unfolding personalise
personalised = refl

-- A display name with a dollar is read as a replacement pattern.
dollar_name : personalise "Hi {name}!" "A$$p" ≡ "Hi A$p!"
unfolding personalise
dollar_name = refl

open_gates : gates ctx sms_send ≡ ok tt
unfolding gates akabbo.Access.Permission.can
open_gates = refl

distinct : Injective draw
distinct i j h = omega arith

all-IsNew : IsNew draw 0 db0.billing.sms
unfolding Billing.has_key Billing.key_eq
all-IsNew i h = (refl, refl, refl)

dispatch_charges_example :
    (res : SendResult) × (db' : Db) × (dispatch ctx announcement "Hi {name}" everyone 50 draw db0
      ≡ ok (res, db'))
    × (res.queued + res.skipped ≡ length (everyone 1 db0.ledger))
    × (balance_of 1 db' ≡ balance_of 1 db0 -ℤ pos res.queued)
    × ((res.skipped ≡ 0) ⊎ (balance_of 1 db' <ℤ pos 1))
dispatch_charges_example =
    dispatch_charges ctx announcement "Hi {name}" everyone 50 draw db0 open_gates distinct all-IsNew

campaign_costs_sent_example :
    (res : SendResult) × (db' : Db) × (db'' : Db) × (dispatch ctx announcement "Hi {name}" everyone
        50 draw db0
      ≡ ok (res, db'))
    × (process_campaign (λ reqs. ok (one_of_two reqs)) 1 50 9 db' ≡ ok (tt, db''))
    × (balance_of 1 db''
        ≡ balance_of 1 db0
          -ℤ pos (accepted_count res.queued (one_of_two (map request (pending 1 50 db'.messages)))))
    × (pending 1 50 db''.messages ≡ [])
unfolding pending
campaign_costs_sent_example =
    campaign_costs_sent ctx announcement "Hi {name}" everyone 50 draw db0 open_gates distinct
      all-IsNew one_of_two 9 refl

process_campaign_again_example :
    (db' : Db) × (process_campaign (λ reqs. ok (one_of_two reqs)) 1 50 9 db1 ≡ ok (tt, db'))
    × ((send : List SmsSendRequest → Result (List SmsSendResult)) (later : ℕ)
        → process_campaign send 1 50 later db' ≡ ok (tt, db'))
process_campaign_again_example = process_campaign_again one_of_two 1 50 9 db1
