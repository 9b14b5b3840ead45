-- ===== src/Team/Members.antt =====
-- libs/ledger/src/membership.service.ts: who stands where in an event.
pub mod Laws
use akabbo.Prelude.{ℕ, Bool, true, false, Option, none, some, is_some, [], ◌∷◌, if◌then◌else◌}
use akabbo.Prelude.Result.{not_found, not_permitted}
use akabbo.Prelude.Tx.{Tx, pure, gets, found, modify, lift, ◌>>=◌, ◌>>◌}
use akabbo.Access.Permission.{Role, member_manage}
use akabbo.Access.Gates.{OperationContext, gates}
use akabbo.Ledger.Tables.{text}
use akabbo.Team.Tables.{
  Db, Member, MembershipStatus, joined, find_event, find_user, find_member, upsert_member,
  role_name, log_audit,
}

abbrev pub is_joined : MembershipStatus → Bool
is_joined joined = true
is_joined _ = false

-- `resolveContext`: the standing of an active member in an event that exists.
unfoldable pub resolve_context : ℕ → ℕ → Db → Option OperationContext
resolve_context user event db = elim (find_event event db.events) [
  | none ↦ none
  | some e ↦ elim (find_member event user db.members) [
    | none ↦ none
    | some m ↦
        if is_joined m.status
        then some (record { user_id = user; event_id = event; role = m.role; status = e.status })
        else none
  ]
]

-- `requireContext`
unfoldable pub require_context : ℕ → ℕ → Tx Db OperationContext
require_context user event = do ctx ← gets (resolve_context user event); found ctx not_permitted

-- The new row of `addMember`.
abbrev pub new_member : OperationContext → ℕ → Role → Member
new_member ctx target role = record {
  event_id = ctx.event_id;
  user_id = target;
  role = role;
  status = joined;
  invited_by_id = some ctx.user_id;
}

-- `addMember`, which is `updateRole` too.
unfoldable pub add_member : OperationContext → ℕ → Role → Tx Db (ℕ × Role)
unfolding gates upsert_member log_audit
add_member ctx target role = do
  lift (gates ctx member_manage)
  user ← gets (λ db. find_user target db.users)
  found user not_found
  existing ← gets (λ db. find_member ctx.event_id target db.members)
  modify (λ db. record db {
    members =
        upsert_member (new_member ctx target role) (λ m. record m { role = role; status = joined })
          db.members;
  })
  log_audit ctx.event_id ctx.user_id (if is_some existing then "member:rerole" else "member:add")
      ("event_member", target)
      (elim existing [ none ↦ none | some m ↦ some (("role", text (role_name m.role)) ∷ []) ])
      (some (("role", text (role_name role)) ∷ []))
  pure (target, role)
