-- ===== src/Transparency/Activity.antt =====
-- libs/transparency/src/public-view.service.ts: the payments that the public page lists.
use akabbo.Prelude.{ℕ, ◌==◌, leb, String, Option, none, some, List, [], ◌∷◌, map, if◌then◌else◌}
use akabbo.Prelude.Int.{ℤ}
use akabbo.Prelude.Lists.{take}
use akabbo.Ledger.Money.{money_to_string}
use akabbo.Ledger.Store.{find_person, find_pledge}
use akabbo.Ledger.Tables.{Db, Fulfillment}
use akabbo.Comms.Recipients.{is_cancelled}

-- `PublicActivityEntry`
pub record PublicActivityEntry : Type 0 where
  pub display_name : String
  pub value : String
  pub occurred_at : ℕ

-- A payment, with the name of who made it.
pub record Activity : Type 0 where
  pub display_name : String
  pub value : ℤ
  pub occurred_at : ℕ

-- The join of payments, pledges that are not cancelled, and people.
unfoldable pub activity_of : ℕ → Db → Fulfillment → Option Activity
activity_of ev db f = elim (find_pledge ev f.pledge_id db.pledges) [
  | none ↦ none
  | some p ↦ if is_cancelled p.status then none else elim (find_person ev p.person_id db.people) [
    | none ↦ none
    | some person ↦ some (record {
      display_name = person.display_name;
      value = f.value;
      occurred_at = f.occurred_at;
    })
  ]
]

-- `ORDER BY f.occurred_at DESC`
unfoldable pub insert_activity : Activity → List Activity → List Activity
insert_activity a [] = a ∷ []
insert_activity a (b ∷ bs) =
    let rest = insert_activity a bs in
    if leb b.occurred_at a.occurred_at then a ∷ b ∷ bs else b ∷ rest

unfoldable pub activities : ℕ → Db → List Fulfillment → List Activity
unfolding activity_of insert_activity
activities ev db [] = []
activities ev db (f ∷ fs) =
    let rest = activities ev db fs in
    if f.event_id == ev
    then elim (activity_of ev db f) [ none ↦ rest | some a ↦ insert_activity a rest ]
    else rest

unfoldable pub activity_view : Activity → PublicActivityEntry
activity_view a = record {
  display_name = a.display_name;
  value = money_to_string a.value;
  occurred_at = a.occurred_at;
}

abbrev pub recent_activity_limit : ℕ
recent_activity_limit = 10

-- `buildRecentActivity`
unfoldable pub build_recent_activity : ℕ → Db → List PublicActivityEntry
unfolding activities activity_view take
build_recent_activity ev db =
    map activity_view (take recent_activity_limit (activities ev db db.fulfillments))
