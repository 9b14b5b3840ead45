-- ===== src/Billing/Trials/Laws.antt =====
-- Starting the free trial of an account, and starting it again.
use akabbo.Prelude.{ℕ, ==_refl, ◌≡◌, ap, ◌∙◌, true, none, some, ◌∷◌, arith, if◌then◌else◌}
use akabbo.Prelude.Int.{ℤ, pos}
use akabbo.Prelude.Result.{ok}
use akabbo.Billing.Tables.{Db, Plan, Scope, Key, has_key, account_sms, account_ai}
use akabbo.Billing.Credits.{insert_row, append, append_ai, grant_credits, grant_ai_credits}
use akabbo.Billing.Credits.Settle.{key_eq_refl}
use akabbo.Billing.Plans.{find_code}
use akabbo.Billing.Trials.{plan, has_account_grant, trial_grant, of_account, start_account_trial}

-- A grant of credits under a key that is taken changes nothing, and it takes its key.
grant_credits-taken :
    (s : Scope) (a : ℤ) (key : Key) (db : Db)
    → has_key key db.sms ≡ true
    → grant_credits s a key db ≡ db
unfolding grant_credits append insert_row
grant_credits-taken s a key db h = ground arith

grant_ai_credits-taken :
    (s : Scope) (a : ℤ) (key : Key) (db : Db)
    → has_key key db.ai ≡ true
    → grant_ai_credits s a key db ≡ db
unfolding grant_ai_credits append_ai insert_row
grant_ai_credits-taken s a key db h = ground arith

has_key-grant_credits :
    (s : Scope) (a : ℤ) (key : Key) (db : Db) → has_key key (grant_credits s a key db).sms ≡ true
unfolding grant_credits append insert_row has_key
has_key-grant_credits s a key db = ground (arith, key_eq_refl key)

has_key-grant_ai_credits :
    (s : Scope) (a : ℤ) (key : Key) (db : Db) → has_key key (grant_ai_credits s a key db).ai ≡ true
unfolding grant_ai_credits append_ai insert_row has_key
has_key-grant_ai_credits s a key db = ground (arith, key_eq_refl key)

module _ (acc : ℕ) (free : Plan) where
  with_grant : ℕ → Db → Db
  with_grant now db =
      if has_account_grant acc free.id db.grants
      then db
      else record db { grants = trial_grant none (some acc) free now ∷ db.grants }

  with_sms : Db → Db
  with_sms = grant_credits (of_account acc) (pos free.included_sms_credits) (account_sms acc)

  with_ai : Db → Db
  with_ai = grant_ai_credits (of_account acc) (pos free.included_ai_credits) (account_ai acc)

  -- The tables after the trial.
  trial : ℕ → Db → Db
  trial now db = with_ai (with_sms (with_grant now db))

  start_account_trial_runs :
      (now : ℕ) (db : Db)
      → find_code "FREE" db.plans ≡ some free
      → start_account_trial acc now db ≡ (ok tt, trial now db)
  unfolding start_account_trial plan trial with_grant with_sms with_ai
  start_account_trial_runs now db known = ground arith

  has_account_grant-with_grant :
      (now : ℕ) (db : Db) → has_account_grant acc free.id (with_grant now db).grants ≡ true
  unfolding with_grant has_account_grant
  has_account_grant-with_grant now db = ground (arith, ==_refl acc, ==_refl free.id)

  with_grant-plans : (now : ℕ) (db : Db) → (with_grant now db).plans ≡ db.plans
  unfolding with_grant
  with_grant-plans now db = ground arith

  with_grant-taken :
      (now : ℕ) (db : Db) → has_account_grant acc free.id db.grants ≡ true → with_grant now db ≡ db
  unfolding with_grant
  with_grant-taken now db h = ground arith

  trial-twice : (now later : ℕ) (db : Db) → trial later (trial now db) ≡ trial now db
  unfolding trial with_sms with_ai grant_credits grant_ai_credits append append_ai
  trial-twice now later db =
      ap (λ d. with_ai (with_sms d))
        (with_grant-taken later (trial now db) (has_account_grant-with_grant now db))
      ∙ ap with_ai (
          grant_credits-taken (of_account acc) (pos free.included_sms_credits) (account_sms acc)
            (trial now db)
            (has_key-grant_credits (of_account acc) (pos free.included_sms_credits)
              (account_sms acc) (with_grant now db)))
      ∙ grant_ai_credits-taken (of_account acc) (pos free.included_ai_credits) (account_ai acc)
          (trial now db)
          (has_key-grant_ai_credits (of_account acc) (pos free.included_ai_credits) (account_ai acc)
            (with_sms (with_grant now db)))

  -- Where the free plan is known: the trial of an account can be started, and starting it again, at any
  -- time, returns and changes nothing, so its credits are given once.
  pub start_account_trial_once :
      (now later : ℕ) (db : Db)
      → find_code "FREE" db.plans ≡ some free
      → (db' : Db) × (start_account_trial acc now db ≡ (ok tt, db'))
        × (has_account_grant acc free.id db'.grants ≡ true)
        × (has_key (account_sms acc) db'.sms ≡ true)
        × (has_key (account_ai acc) db'.ai ≡ true)
        × (start_account_trial acc later db' ≡ (ok tt, db'))
  unfolding trial with_sms with_ai grant_credits grant_ai_credits append append_ai
  start_account_trial_once now later db known = (
    trial now db,
    start_account_trial_runs now db known,
    has_account_grant-with_grant now db,
    has_key-grant_credits (of_account acc) (pos free.included_sms_credits) (account_sms acc)
        (with_grant now db),
    has_key-grant_ai_credits (of_account acc) (pos free.included_ai_credits) (account_ai acc)
        (with_sms (with_grant now db)),
    start_account_trial_runs later (trial now db)
          (ap (find_code "FREE") (with_grant-plans now db) ∙ known)
        ∙ ap (λ d. (ok tt, d)) (trial-twice now later db),
  )
