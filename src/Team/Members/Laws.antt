-- ===== src/Team/Members/Laws.antt =====
-- The standing of members after a change.
use akabbo.Prelude.{
  ℕ, ◌==◌, ◌≡◌, ap, ◌∙◌, ◌≢◌, refl, ◌⊎◌, inl, inr, false, ◌&&◌, Option, none, some, List, [], ◌∷◌,
  arith, Option-cases, ==_refl, if◌then◌else◌,
}
use akabbo.Prelude.Result.{ok}
use akabbo.Access.Permission.{Role}
use akabbo.Access.Gates.{OperationContext}
use akabbo.Team.Tables.{Db, Event, Member, joined, find_event, find_member, upsert_member}
use akabbo.Team.Members.{resolve_context, new_member, add_member}

-- `g` leaves the event and the user of a member alone.
abbrev pub KeepsMember : (Member → Member) → Type 0
KeepsMember g = (m : Member) → ((g m).event_id ≡ m.event_id) × ((g m).user_id ≡ m.user_id)

-- The row after an upsert.
abbrev pub upserted : Member → (Member → Member) → Option Member → Member
upserted new g none = new
upserted new g (some m) = g m

pub find_member-upsert_member :
    (ev user : ℕ) (new : Member) (g : Member → Member) (ms : List Member)
    → KeepsMember g
    → find_member ev user (upsert_member new g ms) ≡ (
        if new.event_id == ev && new.user_id == user
        then some (upserted new g (find_member ev user ms))
        else find_member ev user ms)
unfolding find_member upsert_member
find_member-upsert_member ev user new g [] k = ground arith
find_member-upsert_member ev user new g (m ∷ ms) k =
    ground (arith, k m, find_member-upsert_member ev user new g ms k)

resolve_context_same :
    (user event : ℕ) (db db' : Db)
    → db'.events ≡ db.events
    → find_member event user db'.members ≡ find_member event user db.members
    → resolve_context user event db' ≡ resolve_context user event db
unfolding resolve_context
resolve_context_same user event db db' events member =
    elim (Option-cases (find_event event db.events)) [
      | inl gone ↦ ground (arith, events, member)
      | inr (e, there) ↦ elim (Option-cases (find_member event user db.members)) [
        | inl no_row ↦ ground (arith, events, member)
        | inr (m, row) ↦ ground (arith, events, member)
      ]
    ]

is_other :
    (ev target event user : ℕ)
    → (event ≢ ev) ⊎ (user ≢ target)
    → (ev == event && target == user) ≡ false
is_other ev target event user other = ground arith

-- What a call that returns leaves of the tables.
module _ (ctx : OperationContext) (target : ℕ) (role : Role) (db : Db) {r : ℕ × Role} {db' : Db}
    (h : add_member ctx target role db ≡ ok (r, db')) where
  members-add_member :
      (db'.events ≡ db.events)
      × (db'.members
          ≡ upsert_member
              (new_member ctx target role)
              (λ m. record m { role = role; status = joined })
              db.members)
  unfolding add_member
  members-add_member = (ground arith, ground arith)

  find_member-add_member :
      (event user : ℕ)
      → find_member event user db'.members ≡ (
          if ctx.event_id == event && target == user
          then some (
              upserted
                (new_member ctx target role)
                (λ m. record m { role = role; status = joined })
                (find_member event user db.members))
          else find_member event user db.members)
  find_member-add_member event user =
      ap (find_member event user) members-add_member.1
      ∙ find_member-upsert_member event user (new_member ctx target role)
          (λ m. record m { role = role; status = joined }) db.members (λ m. (refl, refl))

  -- Who is added or given another role stands in the event with that role and the event's status,
  -- whatever the membership was before.
  pub resolve_context-add_member :
      {e : Event}
      → find_event ctx.event_id db.events ≡ some e
      → resolve_context target ctx.event_id db'
        ≡ some
            (record { user_id = target; event_id = ctx.event_id; role = role; status = e.status })
  unfolding resolve_context
  resolve_context-add_member there =
      elim (Option-cases (find_member ctx.event_id target db.members)) [
        | inl new ↦ ground (
          arith,
          members-add_member,
          find_member-add_member ctx.event_id target,
          ==_refl ctx.event_id,
          ==_refl target,
        )
        | inr (m, old) ↦ ground (
          arith,
          members-add_member,
          find_member-add_member ctx.event_id target,
          ==_refl ctx.event_id,
          ==_refl target,
        )
      ]

  -- A member who is added or given another role leaves the standing of everyone else, and of everyone
  -- in every other event, as it was.
  pub add_member_keeps :
      (user event : ℕ)
      → (event ≢ ctx.event_id) ⊎ (user ≢ target)
      → resolve_context user event db' ≡ resolve_context user event db
  add_member_keeps user event other =
      resolve_context_same user event db db' members-add_member.0 (
        find_member-add_member event user ∙ rw (is_other ctx.event_id target event user other) refl)
