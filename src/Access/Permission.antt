-- ===== src/Access/Permission.antt =====
-- libs/access/src/permission.service.ts: the role matrix and `can`.
use akabbo.Prelude.{
  ℕ, ◌≤◌, ◌==◌, ◌≡◌, ◌≢◌, ◌⊎◌, inl, refl, Bool, true, false, ◌||◌, List, [], ◌∷◌, ◌++◌, arith,
}
use akabbo.Prelude.Result.{Result, require, not_permitted}

-- `EventRole`, from the strongest.
pub data Role : Type 0 where
  owner co_owner coordinator finance viewer : Role

-- `ACTIONS` of actions.ts, in its order.
pub data Action : Type 0 where
  event_read event_update member_manage : Action
  person_write person_merge pledge_write pledge_cancel fulfillment_write fulfillment_correct :
      Action
  ledger_read_funding ledger_read_amounts budget_read budget_write group_read group_write : Action
  document_upload document_read public_configure announcement_read announcement_write : Action
  payment_instruction_read payment_instruction_write sms_send sms_read : Action

-- The place of an action in `ACTIONS`, by which two actions are compared.
action_code : Action → ℕ
action_code event_read = 0
action_code event_update = 1
action_code member_manage = 2
action_code person_write = 3
action_code person_merge = 4
action_code pledge_write = 5
action_code pledge_cancel = 6
action_code fulfillment_write = 7
action_code fulfillment_correct = 8
action_code ledger_read_funding = 9
action_code ledger_read_amounts = 10
action_code budget_read = 11
action_code budget_write = 12
action_code group_read = 13
action_code group_write = 14
action_code document_upload = 15
action_code document_read = 16
action_code public_configure = 17
action_code announcement_read = 18
action_code announcement_write = 19
action_code payment_instruction_read = 20
action_code payment_instruction_write = 21
action_code sms_send = 22
action_code sms_read = 23

-- `FULL_LEDGER`
abbrev full_ledger : List Action
full_ledger =
    person_write ∷ person_merge ∷ pledge_write ∷ pledge_cancel ∷ fulfillment_write
    ∷ fulfillment_correct ∷ ledger_read_funding ∷ ledger_read_amounts ∷ budget_read ∷ budget_write
    ∷ group_read ∷ group_write ∷ document_upload ∷ document_read ∷ []

-- `PUBLISHING`
abbrev publishing : List Action
publishing =
    announcement_read ∷ announcement_write ∷ payment_instruction_read ∷ payment_instruction_write
    ∷ sms_send ∷ sms_read ∷ []

-- `MATRIX`
abbrev matrix : Role → List Action
matrix owner =
    event_read ∷ event_update ∷ member_manage ∷ public_configure ∷ (full_ledger ++ publishing)
matrix co_owner =
    event_read ∷ event_update ∷ member_manage ∷ public_configure ∷ (full_ledger ++ publishing)
matrix coordinator = event_read ∷ event_update ∷ (full_ledger ++ publishing)
matrix finance = event_read ∷ full_ledger
matrix viewer = event_read ∷ ledger_read_funding ∷ budget_read ∷ group_read ∷ []

-- `Set.has`
has : Action → List Action → Bool
unfolding action_code
has a [] = false
has a (b ∷ bs) = (action_code a == action_code b) || has a bs

-- `PermissionService.can`
unfoldable pub can : Role → Action → Bool
unfolding has
can r a = has a (matrix r)

-- `PermissionService.assert`
unfoldable pub assert : Role → Action → Result (Unit {0})
assert r a = require (can r a) not_permitted

-- How strong a role is.
abbrev pub rank : Role → ℕ
rank viewer = 0
rank finance = 1
rank coordinator = 2
rank co_owner = 3
rank owner = 3

-- The actions that change something or send something out.
abbrev pub is_write : Action → Bool
is_write event_read = false
is_write ledger_read_funding = false
is_write ledger_read_amounts = false
is_write budget_read = false
is_write group_read = false
is_write document_read = false
is_write announcement_read = false
is_write payment_instruction_read = false
is_write sms_read = false
is_write _ = true

-- Owners and co-owners may perform every action of the catalog.
pub owner-can : (a : Action) → (can owner a ≡ true) × (can co_owner a ≡ true)
unfolding can
owner-can event_read = (refl, refl)
owner-can _ = (refl, refl)

viewer→finance : (a : Action) → can viewer a ≡ true → can finance a ≡ true
unfolding can
viewer→finance event_read h = refl
viewer→finance _ h = ground arith

finance→coordinator : (a : Action) → can finance a ≡ true → can coordinator a ≡ true
unfolding can
finance→coordinator event_read h = refl
finance→coordinator _ h = ground arith

-- The roles form a chain: whatever a role may do, a role of at least its rank may do.
pub can_mono : (r s : Role) (a : Action) → rank r ≤ rank s → can r a ≡ true → can s a ≡ true
can_mono r owner a le h = (owner-can a).0
can_mono r co_owner a le h = (owner-can a).1
can_mono coordinator coordinator a le h = h
can_mono finance coordinator a le h = finance→coordinator a h
can_mono viewer coordinator a le h = finance→coordinator a (viewer→finance a h)
can_mono finance finance a le h = h
can_mono viewer finance a le h = viewer→finance a h
can_mono viewer viewer a le h = h
can_mono _ _ a le h = absurd (omega arith)

-- A viewer may perform no write and may not read amounts.
pub viewer_blind :
    (a : Action) → can viewer a ≡ true → (is_write a ≡ false) × (a ≢ ledger_read_amounts)
unfolding can
viewer_blind event_read h = (refl, ground arith)
viewer_blind _ h = ground arith

-- A role that may manage members or configure the public page is the owner's or a co-owner's.
pub owner_tier :
    (r : Role)
    → (can r member_manage ≡ true) ⊎ (can r public_configure ≡ true)
    → (r ≡ owner) ⊎ (r ≡ co_owner)
unfolding can
owner_tier owner h = inl refl
owner_tier _ h = ground arith
