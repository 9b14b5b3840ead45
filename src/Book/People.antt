-- ===== src/Book/People.antt =====
-- libs/ledger/src/person.service.ts: the contributors of an event, their contact, their account, and
-- the merge of two records of one person.
pub mod Merge
use akabbo.Prelude.{
  ℕ, ◌==◌, str_eq, Bool, true, false, not, ◌&&◌, ◌||◌, String, Option, none, some, is_some, List,
  [], ◌∷◌, if◌then◌else◌, or_else, suc,
}
use akabbo.Prelude.Result.{not_entitled, not_found, conflict, phone_attached}
use akabbo.Prelude.Tx.{Tx, pure, gets, lift, found, modify, throw_if, ◌>>=◌, ◌>>◌}
use mathlib.Core.List.{reverse}
use akabbo.Access.Permission.{person_write, person_merge, ledger_read_amounts, assert}
use akabbo.Access.Gates.{OperationContext, gates}
use akabbo.Access.Entitlement.{Check, add_contributor}
use akabbo.Ledger.Store.{is_row, find_person}
use akabbo.Ledger.Tables.{
  Person, Pledge, ProvenanceSource, human_typed, manual_correction, Json, null, text, ref,
}
use akabbo.Book.Tables.{Db, FileObject, PersonGroup, log, map_person, delete_person, user_taken}

-- `PersonView`
pub record PersonView : Type 0 where
  pub id : ℕ
  pub display_name : String
  pub phone : Option String
  pub source : ProvenanceSource
  pub user_id : Option ℕ

abbrev pub view : Person → PersonView
view p = record {
  id = p.id;
  display_name = p.display_name;
  phone = p.phone;
  source = p.source;
  user_id = p.user_id;
}

-- `CreatePersonInput`
pub record CreatePersonInput : Type 0 where
  pub display_name : String
  pub phone : Option String
  pub confirm_shared_phone : Bool
  pub source : Option ProvenanceSource

-- Is the phone on file for a person of the event other than the one excluded?
unfoldable pub phone_on_file : ℕ → String → Option ℕ → List Person → Bool
phone_on_file ev phone excluded [] = false
phone_on_file ev phone excluded (p ∷ ps) =
    (p.event_id == ev)
      && elim p.phone [ none ↦ false | some q ↦ str_eq q phone ]
      && elim excluded [ none ↦ true | some id ↦ not (p.id == id) ]
    || phone_on_file ev phone excluded ps

-- `assertPhoneNotAttachedElsewhere`
unfoldable pub assert_phone_not_attached_elsewhere : ℕ → String → Bool → Option ℕ → Tx Db (Unit {0})
unfolding phone_on_file
assert_phone_not_attached_elsewhere ev phone confirmed excluded = if confirmed then pure tt else do
  attached ← gets (λ db. phone_on_file ev phone excluded db.ledger.people)
  throw_if attached phone_attached

abbrev update_people : (List Person → List Person) → Tx Db (Unit {0})
update_people g =
    modify (λ db. record db { ledger = record db.ledger { people = g db.ledger.people } })

-- The empty text is no phone.
abbrev given : Option String → Option String
given none = none
given (some s) = if str_eq s "" then none else some s

-- `createPerson`; `id` is the id that the database draws.
unfoldable pub create_person : Check → OperationContext → CreatePersonInput → ℕ → Tx Db PersonView
unfolding gates assert_phone_not_attached_elsewhere log
create_person entitled ctx input id = do
  lift (gates ctx person_write)
  throw_if (not (entitled ctx.event_id add_contributor)) not_entitled
  elim (given input.phone) [
    | none ↦ pure tt
    | some phone ↦
        assert_phone_not_attached_elsewhere ctx.event_id phone input.confirm_shared_phone none
  ]
  let person : Person = record {
    id = id;
    event_id = ctx.event_id;
    display_name = input.display_name;
    phone = input.phone;
    user_id = none;
    source = or_else input.source human_typed;
    created_by = ctx.user_id;
  }
  update_people (λ ps. person ∷ ps)
  log ctx "person:create" ("person", id) person.source none
      (some (("displayName", text person.display_name) ∷ []))
  pure (view person)

abbrev json_phone : Option String → Json
json_phone none = null
json_phone (some s) = text s

abbrev json_user : Option ℕ → Json
json_user none = null
json_user (some u) = ref u

abbrev same_phone : String → Option String → Bool
same_phone s none = false
same_phone s (some t) = str_eq s t

-- `updateContact`
unfoldable pub update_contact : OperationContext → ℕ → String → Bool → Tx Db PersonView
unfolding gates assert_phone_not_attached_elsewhere log map_person
update_contact ctx id phone confirmed = do
  lift (gates ctx person_write)
  row ← gets (λ db. find_person ctx.event_id id db.ledger.people)
  before ← found row not_found
  if same_phone phone before.phone
      then pure tt
      else assert_phone_not_attached_elsewhere ctx.event_id phone confirmed (some id)
  update_people (map_person ctx.event_id id (λ p. record p { phone = some phone }))
  log ctx "person:update_contact" ("person", id) human_typed
      (some (("phone", json_phone before.phone) ∷ [])) (some (("phone", text phone) ∷ []))
  pure (view (record before { phone = some phone }))

abbrev linked_to : ℕ → Option ℕ → Bool
linked_to user none = false
linked_to user (some u) = u == user

-- `linkPersonToUser`: the unique constraint on the account answers with a conflict.
unfoldable pub link_person_to_user : OperationContext → ℕ → ℕ → Tx Db PersonView
unfolding gates log map_person user_taken
link_person_to_user ctx id user = do
  lift (gates ctx person_write)
  row ← gets (λ db. find_person ctx.event_id id db.ledger.people)
  person ← found row not_found
  throw_if (is_some person.user_id && not (linked_to user person.user_id)) conflict
  taken ← gets (λ db. user_taken ctx.event_id id user db.ledger.people)
  throw_if taken conflict
  update_people (map_person ctx.event_id id (λ p. record p { user_id = some user }))
  if linked_to user person.user_id
      then pure tt
      else (log ctx "person:link_user" ("person", id) human_typed
          (some (("userId", json_user person.user_id) ∷ [])) (some (("userId", ref user) ∷ [])))
  pure (view (record person { user_id = some user }))

abbrev re_parent : ℕ → ℕ → ℕ → Pledge → Pledge
re_parent ev source target p = record p { person_id = target }

-- `tx.pledge.updateMany({ where: { personId: source }, data: { personId: target } })`
unfoldable pub move_pledges : ℕ → ℕ → ℕ → List Pledge → List Pledge
move_pledges ev source target [] = []
move_pledges ev source target (p ∷ ps) =
    (if is_row ev source p.event_id p.person_id then re_parent ev source target p else p)
    ∷ move_pledges ev source target ps

-- The count that `updateMany` returns.
unfoldable pub count_pledges : ℕ → ℕ → List Pledge → ℕ
count_pledges ev person [] = 0
count_pledges ev person (p ∷ ps) =
    let rest = count_pledges ev person ps in
    if is_row ev person p.event_id p.person_id then suc rest else rest

-- `tx.fileObject.updateMany`
unfoldable pub move_files : ℕ → ℕ → ℕ → List FileObject → List FileObject
move_files ev source target [] = []
move_files ev source target (f ∷ fs) =
    (if (f.event_id == ev) && linked_to source f.person_id
      then record f { person_id = some target }
      else f)
    ∷ move_files ev source target fs

-- The memberships that go with a deleted person (`onDelete: Cascade`).
unfoldable pub drop_memberships : ℕ → ℕ → List PersonGroup → List PersonGroup
drop_memberships ev person [] = []
drop_memberships ev person (m ∷ ms) =
    let rest = drop_memberships ev person ms in
    if is_row ev person m.event_id m.person_id then rest else m ∷ rest

abbrev pub set_user : Option ℕ → Person → Person
set_user user p = record p { user_id = user }

-- Two records are linked to two accounts.
abbrev pub accounts_clash : Option ℕ → Option ℕ → Bool
accounts_clash (some a) (some b) = not (a == b)
accounts_clash _ _ = false

-- `!target.userId && source.userId ? source.userId : undefined`
abbrev pub inherited : Option ℕ → Option ℕ → Option ℕ
inherited source none = source
inherited source (some t) = none

-- The update of the target's account, if it inherits one, under the unique constraint.
abbrev pub inherit : ℕ → ℕ → Option ℕ → Tx Db (Unit {0})
inherit ev target none = pure tt
inherit ev target (some user) = do
  taken ← gets (λ db. user_taken ev target user db.ledger.people)
  throw_if taken akabbo.Prelude.Result.unique_violation
  update_people (map_person ev target (set_user (some user)))

-- `mergePeople`; the reference of an SMS message to the deleted person is not among these tables.
unfoldable pub merge_people : OperationContext → ℕ → ℕ → Tx Db (ℕ × ℕ)
unfolding gates log map_person move_pledges count_pledges move_files drop_memberships delete_person
    user_taken
merge_people ctx source_id target_id = do
  lift (gates ctx person_merge)
  throw_if (source_id == target_id) conflict
  source_row ← gets (λ db. find_person ctx.event_id source_id db.ledger.people)
  target_row ← gets (λ db. find_person ctx.event_id target_id db.ledger.people)
  source ← found source_row not_found
  target ← found target_row not_found
  throw_if (accounts_clash source.user_id target.user_id) conflict
  if is_some source.user_id
      then update_people (map_person ctx.event_id source_id (set_user none))
      else pure tt
  moved ← gets (λ db. count_pledges ctx.event_id source_id db.ledger.pledges)
  modify (λ db. record db {
    ledger = record db.ledger {
      pledges = move_pledges ctx.event_id source_id target_id db.ledger.pledges;
    };
    files = move_files ctx.event_id source_id target_id db.files;
  })
  inherit ctx.event_id target_id (inherited source.user_id target.user_id)
  log ctx "person:merge" ("person", target_id) manual_correction
      (some (("mergedFrom", ref source_id) ∷ ("mergedName", text source.display_name) ∷ []))
      (some (("canonical", ref target_id) ∷ ("movedPledges", ref moved) ∷ []))
  modify (λ db. record db {
    ledger = record db.ledger { people = delete_person ctx.event_id source_id db.ledger.people };
    members = drop_memberships ctx.event_id source_id db.members;
  })
  pure (target_id, moved)

unfoldable pub people_of : ℕ → List Person → List PersonView
people_of ev [] = []
people_of ev (p ∷ ps) =
    let rest = people_of ev ps in if p.event_id == ev then view p ∷ rest else rest

-- `listPeople`; the rows stand newest first, and the list begins with the oldest.
unfoldable pub list_people : OperationContext → Tx Db (List PersonView)
unfolding people_of
list_people ctx = do
  lift (assert ctx.role ledger_read_amounts)
  gets (λ db. reverse (people_of ctx.event_id db.ledger.people))
