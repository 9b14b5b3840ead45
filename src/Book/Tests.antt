-- ===== src/Book/Tests.antt =====
-- Runs of the book on small tables.
use akabbo.Prelude.{ℕ, ◌+◌, ◌≡◌, refl, true, false, none, some, [], ◌∷◌}
use akabbo.Prelude.Int.{pos, ◌+ℤ◌}
use akabbo.Prelude.Result.{Result, ok, err, conflict}
use akabbo.Access.Permission.{owner, person_merge, budget_write}
use akabbo.Access.Gates.{OperationContext, active, gates}
use akabbo.Access.Entitlement.{Check}
use akabbo.Ledger.Status.{partially_fulfilled}
use akabbo.Ledger.Tables.{
  Person, Pledge, Fulfillment, cash, payment, in_cash, reported, human_typed,
}
use akabbo.Ledger.Store.{find_person}
use akabbo.Book.Tables.{Db, BudgetItem, PersonGroup, find_item}
use akabbo.Book.People.{merge_people}
use akabbo.Book.People.Merge.{Merged, promised, paid, merge_people_moves}
use akabbo.Book.Groups.{group_committed, group_received}
use akabbo.Book.Groups.Rollup.{share, merge_people_leaves_group}
use akabbo.Book.Budget.{BudgetItemView, ItemChanges, changed, update_item}
use akabbo.Book.Budget.Backed.{IsBacked}
use akabbo.Book.Budget.Versions.{update_item_conflict}
use akabbo.Book.Operations.{Operation, apply, step, here, next, Reach-IsBacked}

abbrev ctx : OperationContext
ctx = record { user_id = 7; event_id = 1; role = owner; status = active }

abbrev john : Person
john = record {
  id = 1;
  event_id = 1;
  display_name = "John Kato";
  phone = none;
  user_id = none;
  source = human_typed;
  created_by = 7;
}

abbrev john_k : Person
john_k = record john { id = 2; display_name = "John K."; phone = some "0700"; user_id = some 9 }

abbrev pledge : ℕ → ℕ → Pledge
pledge id person = record {
  id = id;
  event_id = 1;
  person_id = person;
  type = cash;
  committed_value = pos 500;
  status = partially_fulfilled;
  target_budget_item_id = some 30;
  description = none;
  quantity = none;
  unit = none;
  estimated_value = none;
  is_direct = false;
  source = human_typed;
  created_by = 7;
}

abbrev received : Fulfillment
received = record {
  id = 20;
  event_id = 1;
  pledge_id = 12;
  kind = payment;
  value = pos 200;
  currency = "UGX";
  method = in_cash;
  verification_status = reported;
  note = none;
  occurred_at = 0;
  idempotency_key = none;
  source = human_typed;
  created_by = 7;
  created_at = 0;
}

abbrev item : BudgetItem
item = record {
  id = 30;
  event_id = 1;
  budget_id = 3;
  name = "Catering";
  target_value = pos 900;
  is_public = true;
  source = human_typed;
  confidence = none;
  source_document_id = none;
  created_by = 7;
  version = 1;
}

abbrev db0 : Db
db0 = record {
  ledger = record {
    people = john ∷ john_k ∷ [];
    pledges = pledge 11 1 ∷ pledge 12 2 ∷ [];
    fulfillments = received ∷ [];
    audit = [];
    outbox = [];
  };
  groups =
      record {
        id = 40;
        event_id = 1;
        name = "Bride's side";
        kind = akabbo.Book.Tables.family_side;
        created_by = 7;
      }
      ∷ [];
  members = record { event_id = 1; person_id = 2; group_id = 40; role = none } ∷ [];
  files = [];
  budgets = record { id = 3; event_id = 1 } ∷ [];
  items = item ∷ [];
  allocations = [];
}

may_merge : gates ctx person_merge ≡ ok tt
unfolding gates akabbo.Access.Permission.can
may_merge = refl

there : find_person 1 2 db0.ledger.people ≡ some john_k
unfolding find_person
there = refl

there_too : find_person 1 1 db0.ledger.people ≡ some john
unfolding find_person
there_too = refl

linked_once :
    (u : ℕ)
    → john_k.user_id ≡ some u
    → akabbo.Book.Tables.user_taken 1 2 u db0.ledger.people ≡ false
unfolding akabbo.Book.Tables.user_taken
linked_once u h = refl

merge_people_moves_example :
    (n : ℕ) × (db' : Db) × (merge_people ctx 2 1 db0 ≡ ok ((1, n), db')) × Merged 1 2 1 db0 db'
merge_people_moves_example =
    merge_people_moves ctx 2 1 john_k john db0 may_merge refl there there_too refl linked_once

outside : akabbo.Book.Groups.is_member 1 40 db0.members ≡ false
unfolding akabbo.Book.Groups.is_member
outside = refl

merge_people_leaves_group_example :
    (n : ℕ) × (db' : Db) × (merge_people ctx 2 1 db0 ≡ ok ((1, n), db'))
    × (share (λ person. promised 1 person db0) 1 40 2 db0.members +ℤ group_committed 1 40 db'
        ≡ group_committed 1 40 db0)
    × (share (λ person. paid 1 person db0) 1 40 2 db0.members +ℤ group_received 1 40 db'
        ≡ group_received 1 40 db0)
    × (promised 1 1 db' ≡ promised 1 2 db0 +ℤ promised 1 1 db0)
    × (paid 1 1 db' ≡ paid 1 2 db0 +ℤ paid 1 1 db0)
merge_people_leaves_group_example =
    merge_people_leaves_group ctx 2 1 40 john_k john db0 may_merge refl there there_too refl
      linked_once outside

-- The group's total before the merge.
group_total : group_committed 1 40 db0 ≡ pos 500
unfolding group_committed ◌+ℤ◌ akabbo.Comms.Recipients.committed_by
group_total = refl

may_write : gates ctx budget_write ≡ ok tt
unfolding gates akabbo.Access.Permission.can
may_write = refl

listed : find_item 1 30 db0.items ≡ some item
unfolding find_item
listed = refl

abbrev rename : ItemChanges
rename = record {
  name = some "Food";
  target_value = none;
  is_public = none;
  expected_version = some 1;
}

abbrev raise : ItemChanges
raise = record {
  name = none;
  target_value = some (pos 1000);
  is_public = none;
  expected_version = some 1;
}

update_item_conflict_example :
    (v : BudgetItemView) × (db' : Db) × (update_item ctx 30 rename db0 ≡ ok (v, db'))
    × (find_item 1 30 db'.items ≡ some (changed rename item))
    × (v.version ≡ 1 + 1)
    × (update_item ctx 30 raise db' ≡ err conflict)
update_item_conflict_example =
    update_item_conflict ctx ctx 30 rename raise item db0 may_write may_write refl listed refl refl

abbrev entitled : Check
entitled event action = true

abbrev after : {A : Type 0} → Result (A × Db) → Db → Db
after (ok (a, db)) old = db
after (err e) old = old

abbrev db1 : Db
db1 = after (apply entitled ctx (Operation.allocate 20 30 (pos 150)) 50 51 db0) db0

allocated : apply entitled ctx (Operation.allocate 20 30 (pos 150)) 50 51 db0 ≡ ok (tt, db1)
unfolding apply akabbo.Book.Budget.allocate akabbo.Access.Permission.can
    akabbo.Ledger.Store.find_fulfillment find_item
allocated = refl

-- The line now has money set against it, and cannot go.
stays : apply entitled ctx (Operation.remove_item 30) 50 51 db1 ≡ err conflict
unfolding apply akabbo.Book.Budget.remove_item akabbo.Access.Permission.can find_item
    akabbo.Book.Budget.allocate akabbo.Ledger.Store.find_fulfillment
stays = refl

db0-IsBacked : IsBacked db0
unfolding akabbo.Book.Budget.Backed.backed
db0-IsBacked = refl

Reach-IsBacked_example : IsBacked db1
Reach-IsBacked_example =
    Reach-IsBacked entitled db0 db1
      (next here (step ctx (Operation.allocate 20 30 (pos 150)) 50 51 db0 db1 allocated))
      db0-IsBacked
