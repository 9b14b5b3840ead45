-- ===== src/Team/Invitations/Race.antt =====
-- Two transactions of `acceptInvitation` that read the invitation before either of them wrote.
use akabbo.Prelude.{
  ℕ, ◌<◌, ==_refl, ◌≡◌, ◌≢◌, ap, ◌∙◌, refl, inl, inr, false, String, none, some, arith,
}
use akabbo.Prelude.Result.{ok, Result-cases}
use akabbo.Team.Tables.{Db, Invitation, find_member, find_token}
use akabbo.Team.Members.Laws.{find_member-upsert_member}
use akabbo.Team.Invitations.{Accepted, admitted, readmit, use_once, admit, join}
use akabbo.Team.Invitations.Laws.{
  join-eq-ok, find_token-map_invitation, UsedOnce, use_once-UsedOnce,
}

join_new :
    (actor : ℕ) (i : Invitation) (now : ℕ) (db : Db)
    → find_member i.event_id actor db.members ≡ none
    → i.uses < i.max_uses
    → (a : Accepted) × (db' : Db) × (join actor i now db ≡ ok (a, db')) × (a.already_member ≡ false)
unfolding join admit
join_new actor i now db new room = elim (Result-cases (join actor i now db)) [
  | inr (x, bad) ↦ absurd (ground (arith, new))
  | inl ((a, db'), h) ↦ (a, db', h, ground (arith, new))
]

-- Two different newcomers whose transactions both start from one reading of an invitation with a use
-- left are both admitted, one after the other, and the invitation has only one use more than it had,
-- and the status that one use gives it: a single-use invitation admits two.
pub join_race :
    (one two : ℕ) (i : Invitation) (token : String) (now later : ℕ) (db : Db)
    → two ≢ one
    → i.uses < i.max_uses
    → find_token token db.invitations ≡ some i
    → find_member i.event_id one db.members ≡ none
    → find_member i.event_id two db.members ≡ none
    → (a b : Accepted) × (db1 db2 : Db) × (join one i now db ≡ ok (a, db1))
      × (join two i later db1 ≡ ok (b, db2))
      × (a.already_member ≡ false)
      × (b.already_member ≡ false)
      × ((j : Invitation) × (find_token token db2.invitations ≡ some j) × UsedOnce i j)
join_race one two i token now later db ne room there new_one new_two =
    let (a, db1, first, fresh) = join_new one i now db new_one room in
    let (_, _, members1, invitations1) = join-eq-ok one i now db first fresh in
    let still_new : find_member i.event_id two db1.members ≡ none =
      ap (find_member i.event_id two) members1
      ∙ find_member-upsert_member i.event_id two (admitted i one) (readmit i) db.members
          (λ m. (refl, refl))
      ∙ ground (arith, new_two, ne) in
    let (b, db2, second, fresh_too) = join_new two i later db1 still_new room in
    let (_, _, _, invitations2) = join-eq-ok two i later db1 second fresh_too in
    let token1 : find_token token db1.invitations ≡ some (use_once i one now i) =
      ap (find_token token) invitations1
      ∙ find_token-map_invitation token i.id (use_once i one now) db.invitations i (λ j. refl) there
      ∙ rw (==_refl i.id) refl in
    (
      a,
      b,
      db1,
      db2,
      first,
      second,
      fresh,
      fresh_too,
      (
        use_once i two later (use_once i one now i),
        ap (find_token token) invitations2
            ∙ find_token-map_invitation token i.id (use_once i two later) db1.invitations
                (use_once i one now i) (λ j. refl) token1
            ∙ rw (==_refl i.id) refl,
        use_once-UsedOnce two later i (use_once i one now i),
      ),
    )
