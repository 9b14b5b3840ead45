-- ===== src/Billing/Catalog.antt =====
-- libs/config/src/plan-catalog.config.ts: the plans that are sold. An entry of the catalog has no id, and
-- its name and currency decide nothing.
use akabbo.Prelude.{true, false, none, some, List, [], ◌∷◌}
use akabbo.Billing.Tables.{Plan, event, account}

abbrev pub free : Plan
free = record {
  id = 0;
  code = "FREE";
  scope = event;
  price_minor = 0;
  max_contributors = some 15;
  included_sms_credits = 10;
  included_ai_credits = 15;
  features = "basic_analytics" ∷ [];
  is_subscription = false;
}

abbrev pub starter : Plan
starter = record {
  id = 0;
  code = "STARTER";
  scope = event;
  price_minor = 10000;
  max_contributors = some 100;
  included_sms_credits = 100;
  included_ai_credits = 500;
  features = "unwatermarked_reports" ∷ "seats_3" ∷ [];
  is_subscription = false;
}

abbrev pub standard : Plan
standard = record {
  id = 0;
  code = "STANDARD";
  scope = event;
  price_minor = 30000;
  max_contributors = some 300;
  included_sms_credits = 300;
  included_ai_credits = 1500;
  features = "unwatermarked_reports" ∷ "seats_10" ∷ "custom_branding" ∷ [];
  is_subscription = false;
}

abbrev pub premium : Plan
premium = record {
  id = 0;
  code = "PREMIUM";
  scope = event;
  price_minor = 60000;
  max_contributors = some 1000;
  included_sms_credits = 600;
  included_ai_credits = 5000;
  features =
      "unwatermarked_reports" ∷ "unlimited_seats" ∷ "custom_branding" ∷ "priority_support" ∷ [];
  is_subscription = false;
}

abbrev pub organizer_pro : Plan
organizer_pro = record {
  id = 0;
  code = "ORGANIZER_PRO";
  scope = account;
  price_minor = 30000;
  max_contributors = some 500;
  included_sms_credits = 300;
  included_ai_credits = 3000;
  features = "unwatermarked_reports" ∷ "seats_5" ∷ [];
  is_subscription = true;
}

abbrev pub business : Plan
business = record {
  id = 0;
  code = "BUSINESS";
  scope = account;
  price_minor = 120000;
  max_contributors = none;
  included_sms_credits = 1000;
  included_ai_credits = 10000;
  features =
      "unwatermarked_reports" ∷ "unlimited_seats" ∷ "custom_branding" ∷ "dedicated_account_manager"
      ∷ [];
  is_subscription = true;
}

abbrev pub sms_top_up_100 : Plan
sms_top_up_100 = record {
  id = 0;
  code = "SMS_TOP_UP_100";
  scope = event;
  price_minor = 6000;
  max_contributors = none;
  included_sms_credits = 100;
  included_ai_credits = 0;
  features = [];
  is_subscription = false;
}

abbrev pub sms_top_up_300 : Plan
sms_top_up_300 = record {
  id = 0;
  code = "SMS_TOP_UP_300";
  scope = event;
  price_minor = 16000;
  max_contributors = none;
  included_sms_credits = 300;
  included_ai_credits = 0;
  features = [];
  is_subscription = false;
}

-- `PLAN_CATALOG`
abbrev pub plan_catalog : List Plan
plan_catalog =
    free ∷ starter ∷ standard ∷ premium ∷ organizer_pro ∷ business ∷ sms_top_up_100 ∷ sms_top_up_300
    ∷ []
