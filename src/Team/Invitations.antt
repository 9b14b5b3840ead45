-- ===== src/Team/Invitations.antt =====
-- libs/ledger/src/invitation.service.ts: share links that admit members.
pub mod Laws
pub mod Race
use akabbo.Prelude.{
  ℕ, ◌+◌, ◌*◌, str_eq, ltb, leb, Bool, true, false, not, ◌&&◌, String, Option, none, some, or_else,
  is_some, [], ◌∷◌, if◌then◌else◌,
}
use akabbo.Prelude.Result.{
  Result, ok, err, not_found, not_entitled, bad_request, revoked as revoked_error,
  expired as expired_error, used_up, unique_violation,
}
use akabbo.Prelude.Tx.{Tx, pure, gets, found, modify, lift, throw_if, ◌>>=◌, ◌>>◌}
use akabbo.Access.Permission.{Role, member_manage, assert}
use akabbo.Access.Gates.{OperationContext, gates}
use akabbo.Access.Entitlement.{Check, add_member as add_member_action}
use akabbo.Ledger.Tables.{text, ref}
use akabbo.Team.Tables.{
  Db, Env, Member, joined, Invitation, InvitationStatus, pending, accepted, expired, revoked,
  find_phone, find_member, upsert_member, find_token, find_invitation, map_invitation, role_name,
  log_audit,
}
use akabbo.Team.Members.{is_joined}

-- `CreateInvitationInput`
pub record CreateInvitationInput : Type 0 where
  pub role : Role
  pub invited_phone : Option String
  pub max_uses : Option ℕ
  pub ttl_seconds : Option ℕ

-- `DEFAULT_TTL_SECONDS`
abbrev pub default_ttl_seconds : ℕ
default_ttl_seconds = 7 * 24 * 60 * 60

-- Does the phone belong to an active member of the event? The empty text is no phone.
unfoldable pub phone_is_member : ℕ → Option String → Db → Bool
phone_is_member ev none db = false
phone_is_member ev (some p) db = not (str_eq p "") && (elim (find_phone p db.users) [
  | none ↦ false
  | some u ↦ elim (find_member ev u.id db.members) [ none ↦ false | some m ↦ is_joined m.status ]
])

-- The row that `createInvitation` inserts.
abbrev pub new_invitation : OperationContext → CreateInvitationInput → Env → Invitation
new_invitation ctx input env = record {
  id = env.id;
  event_id = ctx.event_id;
  token = env.token;
  role = input.role;
  status = pending;
  invited_phone = input.invited_phone;
  invited_by_id = ctx.user_id;
  max_uses = or_else input.max_uses 1;
  uses = 0;
  expires_at = env.now + or_else input.ttl_seconds default_ttl_seconds * 1000;
  accepted_by_id = none;
  accepted_at = none;
}

-- `createInvitation`
unfoldable pub create_invitation :
    Check → OperationContext → CreateInvitationInput → Env → Tx Db Invitation
unfolding gates phone_is_member
create_invitation entitled ctx input env = do
  lift (gates ctx member_manage)
  taken ← gets (phone_is_member ctx.event_id input.invited_phone)
  throw_if taken bad_request
  throw_if (not (entitled ctx.event_id add_member_action)) not_entitled
  same ← gets (λ db. is_some (find_token env.token db.invitations))
  throw_if same unique_violation
  modify (λ db. record db { invitations = new_invitation ctx input env ∷ db.invitations })
  pure (new_invitation ctx input env)

abbrev pub is_revoked : InvitationStatus → Bool
is_revoked revoked = true
is_revoked _ = false

abbrev pub is_expired : InvitationStatus → Bool
is_expired expired = true
is_expired _ = false

abbrev pub is_pending : InvitationStatus → Bool
is_pending pending = true
is_pending _ = false

-- `getByToken`, by its field `valid`.
unfoldable pub is_valid : String → ℕ → Db → Option Bool
is_valid token now db = elim (find_token token db.invitations) [
  | none ↦ none
  | some i ↦ some (is_pending i.status && ltb now i.expires_at)
]

-- `{ role, alreadyMember }`
pub record Accepted : Type 0 where
  pub event_id : ℕ
  pub role : Role
  pub already_member : Bool

-- The row of a member that an invitation admits, and its update.
abbrev pub admitted : Invitation → ℕ → Member
admitted i actor = record {
  event_id = i.event_id;
  user_id = actor;
  role = i.role;
  status = joined;
  invited_by_id = some i.invited_by_id;
}

abbrev pub readmit : Invitation → Member → Member
readmit i m = record m { role = i.role; status = joined; invited_by_id = some i.invited_by_id }

-- The invitation after one more use.
abbrev pub use_once : Invitation → ℕ → ℕ → Invitation → Invitation
use_once i actor now j = record j {
  uses = i.uses + 1;
  status = if leb i.max_uses (i.uses + 1) then accepted else pending;
  accepted_by_id = some actor;
  accepted_at = some now;
}

-- The part of the transaction for someone who is no active member. `i` is the invitation as it was
-- read before the transaction.
unfoldable pub admit : ℕ → Invitation → ℕ → Tx Db Accepted
unfolding upsert_member map_invitation log_audit
admit actor i now = do
  throw_if (leb i.max_uses i.uses) used_up
  modify (λ db. record db { members = upsert_member (admitted i actor) (readmit i) db.members })
  modify
      (λ db. record db { invitations = map_invitation i.id (use_once i actor now) db.invitations })
  log_audit i.event_id actor "member:accept_invitation" ("event_member", actor) none
      (some (("role", text (role_name i.role)) ∷ ("invitationId", ref i.id) ∷ []))
  pure (record { event_id = i.event_id; role = i.role; already_member = false })

-- The transaction of `acceptInvitation`.
unfoldable pub join : ℕ → Invitation → ℕ → Tx Db Accepted
unfolding admit
join actor i now = do
  existing ← gets (λ db. find_member i.event_id actor db.members)
  elim existing [
    | none ↦ admit actor i now
    | some m ↦
        if is_joined m.status
        then pure (record { event_id = i.event_id; role = m.role; already_member = true })
        else admit actor i now
  ]

-- A transaction that throws leaves the tables as they were.
abbrev pub run : {A : Type 0} → Tx Db A → Db → Result A × Db
run m db = elim (m db) [ err e ↦ (err e, db) | ok (a, db') ↦ (ok a, db') ]

-- `acceptInvitation`. The invitation is marked as expired outside of any transaction, so this change
-- stays although the call throws.
unfoldable pub accept_invitation : ℕ → String → ℕ → Db → Result Accepted × Db
unfolding join map_invitation
accept_invitation actor token now db = elim (find_token token db.invitations) [
  | none ↦ (err not_found, db)
  | some i ↦
      if is_revoked i.status
      then (err revoked_error, db)
      else if is_expired i.status
      then (err expired_error, db)
      else if leb i.expires_at now
      then (
        err expired_error,
        record db {
          invitations = map_invitation i.id (λ j. record j { status = expired }) db.invitations;
        },
      )
      else run (join actor i now) db
]

-- `revokeInvitation`
unfoldable pub revoke_invitation : OperationContext → ℕ → Tx Db (Unit {0})
unfolding assert map_invitation
revoke_invitation ctx id = do
  lift (assert ctx.role member_manage)
  row ← gets (λ db. find_invitation ctx.event_id id db.invitations)
  i ← found row not_found
  modify (λ db. record db {
    invitations = map_invitation i.id (λ j. record j { status = revoked }) db.invitations;
  })
