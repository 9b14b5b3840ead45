-- ===== src/Billing/Plans/Tests.antt =====
-- Runs of the choice of a plan on small tables.
use akabbo.Prelude.{ℕ, ◌≡◌, refl, true, false, none, some, List, [], ◌∷◌, Option}
use akabbo.Prelude.Result.{ok}
use akabbo.Billing.Tables.{Db, Plan, Grant, active, trialing, Invoice, paid, of_event}
use akabbo.Billing.Entitlements.{owning_account_id}
use akabbo.Billing.Catalog.{premium, free, sms_top_up_100}
use akabbo.Billing.Webhook.{find_plan, put_grant}
use akabbo.Billing.Plans.{Live, find_code, seats_from_features, resolve}
use akabbo.Billing.Plans.TopUp.{at_most_one, cheaper, put_grant_replaces}

abbrev premium_row : Plan
premium_row = record premium { id = 4 }

abbrev free_row : Plan
free_row = record free { id = 1 }

abbrev top_up_row : Plan
top_up_row = record sms_top_up_100 { id = 7 }

-- The event has the premium pack, its owner's account the free trial.
abbrev pack_grant : Grant
pack_grant = record {
  event_id = some 1;
  account_id = none;
  plan_id = 4;
  status = active;
  period_start = 0;
  period_end = none;
}

abbrev trial_grant : Grant
trial_grant = record {
  event_id = none;
  account_id = some 9;
  plan_id = 1;
  status = trialing;
  period_start = 0;
  period_end = none;
}

abbrev invoice : Invoice
invoice = record {
  id = 5;
  billing_account_id = 9;
  plan_id = some 7;
  event_id = some 1;
  status = paid;
  reference = "ref-5";
  gateway_transaction_id = some "t5";
}

abbrev db0 : Db
db0 = record {
  plans = free_row ∷ premium_row ∷ top_up_row ∷ [];
  accounts = record { id = 9; owner_user_id = 7 } ∷ [];
  events = record { id = 1; owner_user_id = 7 } ∷ [];
  grants = trial_grant ∷ pack_grant ∷ [];
  invoices = invoice ∷ [];
  sms = [];
  ai = [];
}

abbrev live : Live
live = record { now = 100; members = []; invitations = []; people = [] }

unlimited_before : (resolve (of_event 1) live db0).max_seats ≡ none
unfolding resolve akabbo.Billing.Entitlements.account_of owning_account_id
    akabbo.Billing.Entitlements.find_owner akabbo.Billing.Entitlements.find_account_id find_plan
unlimited_before = refl

known : find_plan 7 db0.plans ≡ some top_up_row
unfolding find_plan
known = refl

listed : find_code "SMS_TOP_UP_100" db0.plans ≡ some top_up_row
unfolding find_code
listed = refl

low : cheaper (owning_account_id 1 db0) top_up_row db0.plans db0.grants ≡ true
unfolding cheaper akabbo.Billing.Plans.candidate owning_account_id
    akabbo.Billing.Entitlements.find_owner akabbo.Billing.Entitlements.find_account_id find_plan
low = refl

one : at_most_one 1 db0.grants ≡ true
unfolding at_most_one akabbo.Billing.Plans.TopUp.none_of
one = refl

-- A hundred messages for the premium event.
put_grant_replaces_example :
    (db' : Db) × (put_grant invoice top_up_row 100 db0 ≡ ok (tt, db'))
    × ((resolve (of_event 1) live db').plan_code ≡ "SMS_TOP_UP_100")
    × ((resolve (of_event 1) live db').max_contributors ≡ none)
    × ((resolve (of_event 1) live db').max_seats ≡ seats_from_features [])
    × ((resolve (of_event 1) live db').features ≡ [])
put_grant_replaces_example =
    put_grant_replaces invoice 1 top_up_row 100 live db0 refl known listed low one

-- One seat is left of unlimited ones.
one_seat : seats_from_features [] ≡ some 1
unfolding seats_from_features
one_seat = refl

abbrev over : Grant → ℕ × Option ℕ
over g = (0, some 1)
