-- ===== src/Transparency/Settings.antt =====
-- libs/transparency/src/public-settings.service.ts: the owner's control of the public page. The
-- token that `randomBytes` draws is an argument.
pub mod Laws
use akabbo.Prelude.{ℕ, ◌+◌, Bool, String, Option, none, some, [], ◌∷◌, or_else, is_some}
use akabbo.Prelude.Result.{missing_record}
use akabbo.Prelude.Tx.{Tx, pure, gets, lift, found, ◌>>=◌, ◌>>◌}
use akabbo.Access.Permission.{public_configure, assert}
use akabbo.Access.Gates.{OperationContext}
use akabbo.Ledger.Tables.{Snapshot, text, flag, human_typed}
use akabbo.Transparency.Tables.{
  Db, Event, ContributorVisibility, BudgetVisibility, names_and_amounts, names_only, aggregate_only,
  partially_public, find_event, update_event, log,
}

-- `PublicSettingsView`
pub record PublicSettingsView : Type 0 where
  pub slug : String
  pub is_public : Bool
  pub access_token : Option String
  pub contributor_visibility : ContributorVisibility
  pub budget_visibility : BudgetVisibility
  pub show_target : Bool
  pub show_outstanding : Bool
  pub description : Option String
  pub revision : ℕ

-- `UpdatePublicSettingsInput`: `none` is `undefined`; a description may be set to `null`.
pub record UpdatePublicSettingsInput : Type 0 where
  pub is_public : Option Bool
  pub contributor_visibility : Option ContributorVisibility
  pub budget_visibility : Option BudgetVisibility
  pub show_target : Option Bool
  pub show_outstanding : Option Bool
  pub description : Option (Option String)

-- `toView`
unfoldable pub to_view : Event → PublicSettingsView
to_view e = record {
  slug = e.slug;
  is_public = e.is_public;
  access_token = e.public_access_token;
  contributor_visibility = e.contributor_visibility;
  budget_visibility = e.budget_visibility;
  show_target = e.show_target;
  show_outstanding = e.show_outstanding;
  description = e.description;
  revision = e.public_revision;
}

-- `prisma.event.findUniqueOrThrow({ where: { id } })`
unfoldable pub find_event_or_throw : ℕ → Tx Db Event
unfolding find_event
find_event_or_throw id = do row ← gets (λ db. find_event id db.events); found row missing_record

-- `getSettings`
unfoldable pub get_settings : OperationContext → Tx Db PublicSettingsView
unfolding find_event_or_throw to_view
get_settings ctx = do
  lift (assert ctx.role public_configure)
  e ← find_event_or_throw ctx.event_id
  pure (to_view e)

contributor_visibility_name : ContributorVisibility → String
contributor_visibility_name names_and_amounts = "NAMES_AND_AMOUNTS"
contributor_visibility_name names_only = "NAMES_ONLY"
contributor_visibility_name aggregate_only = "AGGREGATE_ONLY"
contributor_visibility_name ContributorVisibility.hidden = "HIDDEN"

budget_visibility_name : BudgetVisibility → String
budget_visibility_name BudgetVisibility.public = "PUBLIC"
budget_visibility_name partially_public = "PARTIALLY_PUBLIC"
budget_visibility_name BudgetVisibility.hidden = "HIDDEN"

-- The snapshot that the audit trail keeps.
settings_snapshot : Event → Snapshot
unfolding contributor_visibility_name budget_visibility_name
settings_snapshot e =
    ("isPublic", flag e.is_public)
    ∷ ("contributorVisibility", text (contributor_visibility_name e.contributor_visibility))
    ∷ ("budgetVisibility", text (budget_visibility_name e.budget_visibility))
    ∷ ("showTarget", flag e.show_target)
    ∷ ("showOutstanding", flag e.show_outstanding)
    ∷ []

-- The row after the update: what the input leaves out stays, and the revision moves on by one.
unfoldable pub changed : UpdatePublicSettingsInput → Event → Event
changed input before = record before {
  is_public = or_else input.is_public before.is_public;
  contributor_visibility = or_else input.contributor_visibility before.contributor_visibility;
  budget_visibility = or_else input.budget_visibility before.budget_visibility;
  show_target = or_else input.show_target before.show_target;
  show_outstanding = or_else input.show_outstanding before.show_outstanding;
  description = or_else input.description before.description;
  public_revision = before.public_revision + 1;
}

-- `updateSettings`
unfoldable pub update_settings :
    OperationContext → UpdatePublicSettingsInput → Tx Db PublicSettingsView
unfolding find_event_or_throw to_view changed update_event log settings_snapshot
update_settings ctx input = do
  lift (assert ctx.role public_configure)
  before ← find_event_or_throw ctx.event_id
  update_event ctx.event_id (changed input)
  log ctx "public:configure" ("event", ctx.event_id) human_typed (some (settings_snapshot before))
      (some (settings_snapshot (changed input before)))
  pure (to_view (changed input before))

-- The row after `setToken`.
unfoldable pub with_token : Option String → Event → Event
with_token token e = record e {
  public_access_token = token;
  public_revision = e.public_revision + 1;
}

-- `setToken`
unfoldable pub set_token : OperationContext → Option String → String → Tx Db PublicSettingsView
unfolding find_event_or_throw to_view with_token update_event log
set_token ctx token action = do
  before ← find_event_or_throw ctx.event_id
  update_event ctx.event_id (with_token token)
  log ctx action ("event", ctx.event_id) human_typed none
      (some (("hasToken", flag (is_some token)) ∷ []))
  pure (to_view (with_token token before))

-- `rotateAccessToken`
unfoldable pub rotate_access_token : OperationContext → String → Tx Db PublicSettingsView
unfolding set_token
rotate_access_token ctx token = do
  lift (assert ctx.role public_configure)
  set_token ctx (some token) "public:token_rotate"

-- `clearAccessToken`
unfoldable pub clear_access_token : OperationContext → Tx Db PublicSettingsView
unfolding set_token
clear_access_token ctx = do
  lift (assert ctx.role public_configure)
  set_token ctx none "public:token_clear"
