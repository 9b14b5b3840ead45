-- ===== src/Book/People/Merge.antt =====
-- What a merge of two people does to what each of them promised and paid.
use akabbo.Prelude.{
  ℕ, ◌==◌, ==_refl, ◌≡◌, refl, sym, inl, inr, false, Option, none, some, List, [], ◌∷◌, arith,
  if◌then◌else◌, Option-cases,
}
use akabbo.Prelude.Int.{ℤ, pos, ◌+ℤ◌, int_laws, +ℤ_assoc, zero-+ℤ}
use akabbo.Prelude.Result.{ok}
use akabbo.Access.Permission.{person_merge}
use akabbo.Access.Gates.{OperationContext, gates, gates_open}
use akabbo.Ledger.Tables.{Person, Pledge, Fulfillment, manual_correction, ref, text}
use akabbo.Ledger.Store.{is_row, find_person, find_pledge}
use akabbo.Comms.Recipients.{committed_by, received_from}
use akabbo.Book.Tables.{Db, log, map_person, delete_person, user_taken}
use akabbo.Book.People.{
  move_pledges, re_parent, set_user, accounts_clash, count_pledges, move_files, drop_memberships,
  merge_people,
}

swap : (v a b : ℤ) → v +ℤ (a +ℤ b) ≡ a +ℤ (v +ℤ b)
swap v a b = omega int_laws

module _ (ev source target : ℕ) (apart : (source == target) ≡ false) where
  committed_by-target :
      (ps : List Pledge)
      → committed_by ev target (move_pledges ev source target ps)
        ≡ committed_by ev source ps +ℤ committed_by ev target ps
  unfolding committed_by move_pledges
  committed_by-target [] = sym (zero-+ℤ (pos 0))
  committed_by-target (p ∷ ps) =
      let v = p.committed_value in
      let a = committed_by ev source ps in
      let b = committed_by ev target ps in
      ground (arith, committed_by-target ps, apart, ==_refl target, swap v a b, +ℤ_assoc v a b)

  committed_by-other :
      (other : ℕ) (ps : List Pledge)
      → (other == source) ≡ false
      → (other == target) ≡ false
      → committed_by ev other (move_pledges ev source target ps) ≡ committed_by ev other ps
  unfolding committed_by move_pledges
  committed_by-other other [] h h' = refl
  committed_by-other other (p ∷ ps) h h' = ground (arith, committed_by-other other ps h h')

  -- What became of one pledge.
  abbrev moved : Pledge → Pledge
  moved p = if is_row ev source p.event_id p.person_id then re_parent ev source target p else p

  abbrev moved_option : Option Pledge → Option Pledge
  moved_option none = none
  moved_option (some p) = some (moved p)

  find_pledge-move_pledges :
      (id : ℕ) (ps : List Pledge)
      → find_pledge ev id (move_pledges ev source target ps) ≡ moved_option (find_pledge ev id ps)
  unfolding find_pledge move_pledges
  find_pledge-move_pledges id [] = refl
  find_pledge-move_pledges id (p ∷ ps) = ground (arith, find_pledge-move_pledges id ps)

  received_from-target :
      (ps : List Pledge) (fs : List Fulfillment)
      → received_from ev target (move_pledges ev source target ps) fs
        ≡ received_from ev source ps fs +ℤ received_from ev target ps fs
  unfolding received_from
  received_from-target ps [] = sym (zero-+ℤ (pos 0))
  received_from-target ps (f ∷ fs) =
      let v = f.value in
      let a = received_from ev source ps fs in
      let b = received_from ev target ps fs in
      ground (
        arith,
        received_from-target ps fs,
        find_pledge-move_pledges f.pledge_id ps,
        apart,
        ==_refl target,
        swap v a b,
        +ℤ_assoc v a b,
      )

  received_from-other :
      (other : ℕ) (ps : List Pledge) (fs : List Fulfillment)
      → (other == source) ≡ false
      → (other == target) ≡ false
      → received_from ev other (move_pledges ev source target ps) fs ≡ received_from ev other ps fs
  unfolding received_from
  received_from-other other ps [] h h' = refl
  received_from-other other ps (f ∷ fs) h h' =
      ground (arith, received_from-other other ps fs h h', find_pledge-move_pledges f.pledge_id ps)

user_taken-map_person :
    (ev source target user : ℕ) (ps : List Person)
    → user_taken ev source user ps ≡ false
    → user_taken ev target user (map_person ev source (set_user none) ps) ≡ false
unfolding user_taken map_person
user_taken-map_person ev source target user [] h = refl
user_taken-map_person ev source target user (p ∷ ps) h =
    ground (arith, user_taken-map_person ev source target user ps)

find_person-delete_person :
    (ev id : ℕ) (ps : List Person) → find_person ev id (delete_person ev id ps) ≡ none
unfolding find_person delete_person
find_person-delete_person ev id [] = refl
find_person-delete_person ev id (p ∷ ps) = ground (arith, find_person-delete_person ev id ps)

-- What a person of the event promised, and what was received on it, without what is cancelled.
abbrev pub promised : ℕ → ℕ → Db → ℤ
promised ev person db = committed_by ev person db.ledger.pledges

abbrev pub paid : ℕ → ℕ → Db → ℤ
paid ev person db = received_from ev person db.ledger.pledges db.ledger.fulfillments

-- The money of two people is one person's, and nobody else's changes.
abbrev pub Merged : ℕ → ℕ → ℕ → Db → Db → Type 0
Merged ev source target db db' =
    (promised ev target db' ≡ promised ev source db +ℤ promised ev target db)
    × (paid ev target db' ≡ paid ev source db +ℤ paid ev target db)
    × ((other : ℕ)
        → (other == source) ≡ false
        → (other == target) ≡ false
        → (promised ev other db' ≡ promised ev other db) × (paid ev other db' ≡ paid ev other db))
    × (db'.ledger.fulfillments ≡ db.ledger.fulfillments)
    × (find_person ev source db'.ledger.people ≡ none)
    × (db'.members ≡ drop_memberships ev source db.members)

module _ (ctx : OperationContext) (source target : ℕ) (s t : Person) (db : Db)
    (open_gates : gates ctx person_merge ≡ ok tt) (apart : (source == target) ≡ false)
    (there : find_person ctx.event_id source db.ledger.people ≡ some s)
    (there_too : find_person ctx.event_id target db.ledger.people ≡ some t)
    (agree : accounts_clash s.user_id t.user_id ≡ false) where
  -- The tables in the end, by what became of the people before the source is deleted.
  final : List Person → Db
  final people = record db {
    ledger = record db.ledger {
      people = delete_person ctx.event_id source people;
      pledges = move_pledges ctx.event_id source target db.ledger.pledges;
      audit =
          record {
            event_id = ctx.event_id;
            actor_user_id = ctx.user_id;
            action = "person:merge";
            resource_type = "person";
            resource_id = target;
            source = manual_correction;
            old_value =
                some (("mergedFrom", ref source) ∷ ("mergedName", text s.display_name) ∷ []);
            new_value = some (
                ("canonical", ref target)
                ∷ ("movedPledges", ref (count_pledges ctx.event_id source db.ledger.pledges))
                ∷ []);
          }
          ∷ db.ledger.audit;
    };
    files = move_files ctx.event_id source target db.files;
    members = drop_memberships ctx.event_id source db.members;
  }

  final-Merged : (people : List Person) → Merged ctx.event_id source target db (final people)
  unfolding final
  final-Merged people = (
    committed_by-target ctx.event_id source target apart db.ledger.pledges,
    received_from-target ctx.event_id source target apart db.ledger.pledges db.ledger.fulfillments,
    λ other h h'. (
      committed_by-other ctx.event_id source target apart other db.ledger.pledges h h',
      received_from-other ctx.event_id source target apart other db.ledger.pledges
          db.ledger.fulfillments h h',
    ),
    refl,
    find_person-delete_person ctx.event_id source people,
    refl,
  )

  -- The people before the source is deleted: its account is freed, and the target may inherit it.
  people_after : Option ℕ → Option ℕ → List Person
  people_after none own = db.ledger.people
  people_after (some u) none =
      map_person ctx.event_id target (set_user (some u))
        (map_person ctx.event_id source (set_user none) db.ledger.people)
  people_after (some u) (some w) = map_person ctx.event_id source (set_user none) db.ledger.people

  merge_people_runs :
      ((u : ℕ) → s.user_id ≡ some u → user_taken ctx.event_id source u db.ledger.people ≡ false)
      → merge_people ctx source target db
        ≡ ok (
          (target, count_pledges ctx.event_id source db.ledger.pledges),
          final (people_after s.user_id t.user_id),
        )
  unfolding merge_people log final people_after
  merge_people_runs linked_once = elim (Option-cases s.user_id) [
    | inl alone ↦ elim (Option-cases t.user_id) [
      | inl free ↦ ground (arith, gates_open ctx person_merge open_gates)
      | inr (w, own) ↦ ground (arith, gates_open ctx person_merge open_gates)
    ]
    | inr (u, linked) ↦
        let free_again =
          user_taken-map_person ctx.event_id source target u db.ledger.people
            (linked_once u linked) in
        elim (Option-cases t.user_id) [
          | inl free ↦ ground (arith, gates_open ctx person_merge open_gates, free_again)
          | inr (w, own) ↦ ground (arith, gates_open ctx person_merge open_gates)
        ]
  ]

  -- A merge of two different people of the event by someone who may, in a writable event, where the two
  -- are not linked to different accounts and no third person has the first one's account: it returns;
  -- afterwards the target has promised and paid what both had before, nobody else's amounts have
  -- changed, no payment is lost, and the source is gone, with its places in groups.
  pub merge_people_moves :
      ((u : ℕ) → s.user_id ≡ some u → user_taken ctx.event_id source u db.ledger.people ≡ false)
      → (n : ℕ) × (db' : Db) × (merge_people ctx source target db ≡ ok ((target, n), db'))
        × Merged ctx.event_id source target db db'
  merge_people_moves linked_once =
      (_, _, merge_people_runs linked_once, final-Merged (people_after s.user_id t.user_id))
