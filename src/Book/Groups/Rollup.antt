-- ===== src/Book/Groups/Rollup.antt =====
-- What a group's totals are after a merge of two people.
use akabbo.Prelude.{ℕ, ◌==◌, ==_refl, ◌≡◌, false, some, ◌&&◌, List, [], ◌∷◌, arith, if◌then◌else◌}
use akabbo.Prelude.Int.{ℤ, pos, ◌+ℤ◌, int_laws, +ℤ_assoc, zero-+ℤ}
use akabbo.Prelude.Result.{ok}
use akabbo.Access.Permission.{person_merge}
use akabbo.Access.Gates.{OperationContext, gates}
use akabbo.Ledger.Tables.{Person}
use akabbo.Ledger.Store.{is_row, find_person}
use akabbo.Book.Tables.{Db, PersonGroup, user_taken}
use akabbo.Book.People.{drop_memberships, accounts_clash, merge_people}
use akabbo.Book.People.Merge.{promised, paid, merge_people_moves}
use akabbo.Book.Groups.{sum_members, is_member, group_committed, group_received}

swap : (v a b : ℤ) → v +ℤ (a +ℤ b) ≡ a +ℤ (v +ℤ b)
swap v a b = omega int_laws

-- What the rows of one person in the group add to its total.
unfoldable pub share : (ℕ → ℤ) → ℕ → ℕ → ℕ → List PersonGroup → ℤ
share amount ev group person [] = pos 0
share amount ev group person (m ∷ ms) =
    if is_row ev group m.event_id m.group_id && m.person_id == person
    then amount person +ℤ share amount ev group person ms
    else share amount ev group person ms

-- Without the rows of one person the total is short of that person's share.
sum_members-drop_memberships :
    (amount amount' : ℕ → ℤ) (ev group source target : ℕ) (ms : List PersonGroup)
    → ((other : ℕ)
        → (other == source) ≡ false
        → (other == target) ≡ false
        → amount' other ≡ amount other)
    → is_member target group ms ≡ false
    → share amount ev group source ms
        +ℤ sum_members amount' ev group (drop_memberships ev source ms)
      ≡ sum_members amount ev group ms
unfolding share sum_members drop_memberships is_member
sum_members-drop_memberships amount amount' ev group source target [] same out = zero-+ℤ (pos 0)
sum_members-drop_memberships amount amount' ev group source target (m ∷ ms) same out =
    let rest = share amount ev group source ms in
    let kept = sum_members amount' ev group (drop_memberships ev source ms) in
    ground (
      arith,
      sum_members-drop_memberships amount amount' ev group source target ms same,
      same m.person_id,
      ==_refl m.person_id,
      swap (amount m.person_id) rest kept,
      +ℤ_assoc (amount source) rest kept,
      swap rest (amount m.person_id) kept,
    )

-- A merge goes through of two different people of the event, by whoever may merge, where their accounts
-- do not clash and no third person has the source's account. If the target is not in a group, then the
-- group's totals are short of all that the source's places in it had brought in, promised and paid,
-- although the target now has promised and paid what both had before.
pub merge_people_leaves_group :
    (ctx : OperationContext) (source target group : ℕ) (s t : Person) (db : Db)
    → gates ctx person_merge ≡ ok tt
    → (source == target) ≡ false
    → find_person ctx.event_id source db.ledger.people ≡ some s
    → find_person ctx.event_id target db.ledger.people ≡ some t
    → accounts_clash s.user_id t.user_id ≡ false
    → ((u : ℕ) → s.user_id ≡ some u → user_taken ctx.event_id source u db.ledger.people ≡ false)
    → is_member target group db.members ≡ false
    → (n : ℕ) × (db' : Db) × (merge_people ctx source target db ≡ ok ((target, n), db'))
      × (share (λ person. promised ctx.event_id person db) ctx.event_id group source db.members
            +ℤ group_committed ctx.event_id group db'
          ≡ group_committed ctx.event_id group db)
      × (share (λ person. paid ctx.event_id person db) ctx.event_id group source db.members
            +ℤ group_received ctx.event_id group db'
          ≡ group_received ctx.event_id group db)
      × (promised ctx.event_id target db'
          ≡ promised ctx.event_id source db +ℤ promised ctx.event_id target db)
      × (paid ctx.event_id target db' ≡ paid ctx.event_id source db +ℤ paid ctx.event_id target db)
unfolding group_committed group_received
merge_people_leaves_group ctx source target group s t db open_gates apart there there_too agree once
      out =
    let ev = ctx.event_id in
    let (n, db', runs, (target_promised, target_paid, others, _, _, members)) =
      merge_people_moves ctx source target s t db open_gates apart there there_too agree once in
    (
      n,
      db',
      runs,
      rw members (
          sum_members-drop_memberships (λ person. promised ev person db)
            (λ person. promised ev person db') ev group source target db.members
            (λ other h h'. (others other h h').0) out),
      rw members (
          sum_members-drop_memberships (λ person. paid ev person db) (λ person. paid ev person db')
            ev group source target db.members (λ other h h'. (others other h h').1) out),
      target_promised,
      target_paid,
    )
