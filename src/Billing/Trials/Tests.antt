-- ===== src/Billing/Trials/Tests.antt =====
-- A trial and a purchase on small tables.
use akabbo.Prelude.{◌≡◌, refl, true, some, [], ◌∷◌}
use akabbo.Prelude.Result.{ok, err, bad_request}
use akabbo.Billing.Tables.{Db, has_key, account_sms, account_ai}
use akabbo.Billing.Catalog.{free, starter}
use akabbo.Billing.Plans.{find_code}
use akabbo.Billing.Trials.{Draws, has_account_grant, start_account_trial, subscribe}
use akabbo.Billing.Trials.Laws.{start_account_trial_once}

abbrev db0 : Db
db0 = record {
  plans = free ∷ starter ∷ [];
  accounts = [];
  events = [];
  grants = [];
  invoices = [];
  sms = [];
  ai = [];
}

abbrev draws : Draws
draws = record { account_id = 9; invoice_id = 5; reference = "inv_1" }

-- A pack for one event is no subscription.
no_subscription : subscribe (λ i p s. true) 7 "STARTER" "0700" draws db0 ≡ (err bad_request, db0)
unfolding subscribe
no_subscription = refl

known : find_code "FREE" db0.plans ≡ some free
unfolding find_code
known = refl

start_account_trial_once_example :
    (db' : Db) × (start_account_trial 9 100 db0 ≡ (ok tt, db'))
    × (has_account_grant 9 0 db'.grants ≡ true)
    × (has_key (account_sms 9) db'.sms ≡ true)
    × (has_key (account_ai 9) db'.ai ≡ true)
    × (start_account_trial 9 200 db' ≡ (ok tt, db'))
start_account_trial_once_example = start_account_trial_once 9 free 100 200 db0 known
