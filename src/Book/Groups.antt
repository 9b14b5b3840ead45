-- ===== src/Book/Groups.antt =====
-- libs/ledger/src/group.service.ts: groups of contributors, and what a group has promised and paid.
pub mod Rollup
use akabbo.Prelude.{
  ℕ, suc, ◌==◌, Bool, false, ◌&&◌, ◌||◌, String, Option, none, some, List, [], ◌∷◌, if◌then◌else◌,
  or_else,
}
use akabbo.Prelude.Int.{ℤ, pos, ◌+ℤ◌, ◌-ℤ◌, ltb_ℤ}
use akabbo.Prelude.Result.{not_found}
use akabbo.Prelude.Tx.{Tx, pure, gets, lift, found, modify, ◌>>=◌, ◌>>◌}
use akabbo.Access.Permission.{group_write, group_read, assert}
use akabbo.Access.Gates.{OperationContext, gates}
use akabbo.Ledger.Money.{money_to_string}
use akabbo.Ledger.Status.{outstanding}
use akabbo.Ledger.Store.{is_row, find_person}
use akabbo.Ledger.Tables.{Json, null, text, ref, human_typed}
use akabbo.Comms.Recipients.{committed_by, received_from}
use akabbo.Book.Tables.{
  Db, Group, PersonGroup, GroupKind, family_side, family, friends, workmates, church, school,
  village, committee, diaspora, clan, other_kind, log,
}

-- `GroupView`
pub record GroupView : Type 0 where
  pub id : ℕ
  pub name : String
  pub kind : GroupKind
  pub member_count : ℕ

kind_name : GroupKind → String
kind_name family_side = "FAMILY_SIDE"
kind_name family = "FAMILY"
kind_name friends = "FRIENDS"
kind_name workmates = "WORKMATES"
kind_name church = "CHURCH"
kind_name school = "SCHOOL"
kind_name village = "VILLAGE"
kind_name committee = "COMMITTEE"
kind_name diaspora = "DIASPORA"
kind_name clan = "CLAN"
kind_name other_kind = "OTHER"

-- `createGroup`; `id` is the id that the database draws.
unfoldable pub create_group : OperationContext → String → Option GroupKind → ℕ → Tx Db GroupView
unfolding gates log kind_name
create_group ctx name kind id = do
  lift (gates ctx group_write)
  let group : Group = record {
    id = id;
    event_id = ctx.event_id;
    name = name;
    kind = or_else kind other_kind;
    created_by = ctx.user_id;
  }
  modify (λ db. record db { groups = group ∷ db.groups })
  log ctx "group:create" ("contributor_group", id) human_typed none
      (some (("name", text name) ∷ ("kind", text (kind_name group.kind)) ∷ []))
  pure (record { id = id; name = name; kind = group.kind; member_count = 0 })

-- `tx.contributorGroup.findFirst({ where: { id } })`
unfoldable pub find_group : ℕ → ℕ → List Group → Option Group
find_group ev id [] = none
find_group ev id (g ∷ gs) = if is_row ev id g.event_id g.id then some g else find_group ev id gs

-- Is there a row of the person and the group? `@@unique([personId, groupId])`
unfoldable pub is_member : ℕ → ℕ → List PersonGroup → Bool
is_member person group [] = false
is_member person group (m ∷ ms) =
    (m.person_id == person) && (m.group_id == group) || is_member person group ms

abbrev json_role : Option String → Json
json_role none = null
json_role (some r) = text r

-- `assignPerson`: a pair that is there already counts as success.
unfoldable pub assign_person : OperationContext → ℕ → ℕ → Option String → Tx Db (ℕ × ℕ)
unfolding gates log find_group is_member
assign_person ctx person group role = do
  lift (gates ctx group_write)
  person_row ← gets (λ db. find_person ctx.event_id person db.ledger.people)
  group_row ← gets (λ db. find_group ctx.event_id group db.groups)
  found person_row not_found
  found group_row not_found
  modify (λ db. if is_member person group db.members then db else record db {
    members =
        record { event_id = ctx.event_id; person_id = person; group_id = group; role = role }
        ∷ db.members;
  })
  log ctx "group:assign" ("person_group", person) human_typed none
      (some (("personId", ref person) ∷ ("groupId", ref group) ∷ ("role", json_role role) ∷ []))
  pure (person, group)

-- `_count: { select: { members: true } }`
unfoldable pub member_count : ℕ → ℕ → List PersonGroup → ℕ
member_count ev group [] = 0
member_count ev group (m ∷ ms) =
    let rest = member_count ev group ms in
    if is_row ev group m.event_id m.group_id then suc rest else rest

-- `listGroups`
unfoldable pub list_groups : OperationContext → Tx Db (List GroupView)
unfolding member_count
list_groups ctx = do
  lift (assert ctx.role group_read)
  gets (λ db. views ctx.event_id db.members db.groups)
  where
    views : ℕ → List PersonGroup → List Group → List GroupView
    views ev ms [] = []
    views ev ms (g ∷ gs) =
        let rest = views ev ms gs in
        if g.event_id == ev
        then record {
          id = g.id;
          name = g.name;
          kind = g.kind;
          member_count = member_count ev g.id ms;
        }
          ∷ rest
        else rest

-- `SUM` over the join of the group's memberships with an amount for each person.
unfoldable pub sum_members : (ℕ → ℤ) → ℕ → ℕ → List PersonGroup → ℤ
sum_members amount ev group [] = pos 0
sum_members amount ev group (m ∷ ms) =
    if is_row ev group m.event_id m.group_id
    then amount m.person_id +ℤ sum_members amount ev group ms
    else sum_members amount ev group ms

-- The committed and the received column of `groupContributions`.
unfoldable pub group_committed : ℕ → ℕ → Db → ℤ
unfolding sum_members
group_committed ev group db =
    sum_members (λ person. committed_by ev person db.ledger.pledges) ev group db.members

unfoldable pub group_received : ℕ → ℕ → Db → ℤ
unfolding sum_members
group_received ev group db =
    sum_members (λ person. received_from ev person db.ledger.pledges db.ledger.fulfillments) ev
      group db.members

-- `GroupContribution`
pub record GroupContribution : Type 0 where
  pub group_id : ℕ
  pub name : String
  pub kind : GroupKind
  pub member_count : ℕ
  pub committed : String
  pub received : String
  pub outstanding : String

-- A row of `groupContributions`; the rows come in the order of what was received.
unfoldable pub contribution : ℕ → Db → Group → GroupContribution
unfolding group_committed group_received member_count
contribution ev db g =
    let committed = group_committed ev g.id db in
    let received = group_received ev g.id db in
    record {
      group_id = g.id;
      name = g.name;
      kind = g.kind;
      member_count = member_count ev g.id db.members;
      committed = money_to_string committed;
      received = money_to_string received;
      outstanding =
          money_to_string (if ltb_ℤ received committed then committed -ℤ received else pos 0);
    }
