-- ===== src/Team/Invitations/Laws.antt =====
-- What an invitation admits, and what it never admits.
use akabbo.Prelude.{
  ℕ, ◌+◌, ◌≤◌, ◌<◌, ◌==◌, leb, ◌≡◌, ap, ◌∙◌, refl, ◌⊎◌, inl, inr, true, false, String, Option, none,
  some, List, [], ◌∷◌, arith, Option-cases, Bool-cases, ==_refl, if◌then◌else◌,
}
use akabbo.Prelude.Result.{Error, Result, ok, err, Result-cases}
use akabbo.Access.Permission.{Role}
use akabbo.Team.Tables.{
  Db, Member, joined, Invitation, accepted, pending, find_member, upsert_member, find_token,
  map_invitation,
}
use akabbo.Team.Members.{is_joined}
use akabbo.Team.Members.Laws.{upserted, find_member-upsert_member}
use akabbo.Team.Invitations.{
  Accepted, is_revoked, is_expired, admitted, readmit, use_once, admit, join, accept_invitation,
}

-- `g` leaves the token of an invitation alone.
abbrev pub KeepsToken : (Invitation → Invitation) → Type 0
KeepsToken g = (i : Invitation) → (g i).token ≡ i.token

pub find_token-map_invitation :
    (t : String) (id : ℕ) (g : Invitation → Invitation) (is : List Invitation) (i : Invitation)
    → KeepsToken g
    → find_token t is ≡ some i
    → find_token t (map_invitation id g is) ≡ some (if i.id == id then g i else i)
unfolding find_token map_invitation
find_token-map_invitation t id g [] i k h = cc
find_token-map_invitation t id g (j ∷ is) i k h = elim (Bool-cases (j.id == id)) [
  | inl same ↦ rw same (ground (arith, k j, find_token-map_invitation t id g is i k))
  | inr other ↦ rw other (ground (arith, k j, find_token-map_invitation t id g is i k))
]

-- Nobody joins by an invitation that is revoked, expired or past its time: the call throws and the
-- members stay as they were.
pub accept_invitation_closed :
    (actor : ℕ) (token : String) (now : ℕ) (db : Db) (i : Invitation)
    → find_token token db.invitations ≡ some i
    → (is_revoked i.status ≡ true) ⊎ (is_expired i.status ≡ true) ⊎ (i.expires_at ≤ now)
    → ((e : Error) × ((accept_invitation actor token now db).0 ≡ err e))
      × ((accept_invitation actor token now db).1.members ≡ db.members)
unfolding accept_invitation
accept_invitation_closed actor token now db i there shut =
    rw (accept_invitation, there)
      (elim (Bool-cases (is_revoked i.status)) [
        | inl r ↦ rw r ((_, refl), refl)
        | inr r ↦ rw r (elim (Bool-cases (is_expired i.status)) [
          | inl x ↦ rw x ((_, refl), refl)
          | inr x ↦ rw x (elim (Bool-cases (leb i.expires_at now)) [
            | inl late ↦ rw late ((_, refl), refl)
            | inr early ↦ absurd (ground arith)
          ])
        ])
      ])

-- What a newcomer's transaction leaves.
module _ (actor : ℕ) (i : Invitation) (now : ℕ) (db : Db) {a : Accepted} {db' : Db} where
  admit-eq-ok :
      admit actor i now db ≡ ok (a, db')
      → (a ≡ record { event_id = i.event_id; role = i.role; already_member = false })
        × (i.uses < i.max_uses)
        × (db'.members ≡ upsert_member (admitted i actor) (readmit i) db.members)
        × (db'.invitations ≡ map_invitation i.id (use_once i actor now) db.invitations)
  unfolding admit
  admit-eq-ok h = (ground arith, ground arith, ground arith, ground arith)

  pub join-eq-ok :
      join actor i now db ≡ ok (a, db')
      → a.already_member ≡ false
      → (a ≡ record { event_id = i.event_id; role = i.role; already_member = false })
        × (i.uses < i.max_uses)
        × (db'.members ≡ upsert_member (admitted i actor) (readmit i) db.members)
        × (db'.invitations ≡ map_invitation i.id (use_once i actor now) db.invitations)
  unfolding join
  join-eq-ok h new = elim (Option-cases (find_member i.event_id actor db.members)) [
    | inl no_row ↦ admit-eq-ok (ground (arith, no_row))
    | inr (m, row) ↦ elim (Bool-cases (is_joined m.status)) [
      | inl there ↦ absurd (ground (arith, row, there))
      | inr gone ↦ admit-eq-ok (ground (arith, row, gone))
    ]
  ]

  join-already :
      join actor i now db ≡ ok (a, db')
      → a.already_member ≡ true
      → (m : Member) × (db' ≡ db)
        × (find_member i.event_id actor db.members ≡ some m)
        × (is_joined m.status ≡ true)
        × (a ≡ record { event_id = i.event_id; role = m.role; already_member = true })
  unfolding join
  join-already h old = elim (Option-cases (find_member i.event_id actor db.members)) [
    | inl no_row ↦
        absurd (cc (old, ap (λ x. x.already_member) (admit-eq-ok (ground (arith, no_row))).0))
    | inr (m, row) ↦ elim (Bool-cases (is_joined m.status)) [
      | inl there ↦ (m, ground (arith, row, there), row, there, ground (arith, row, there))
      | inr gone ↦
          absurd (cc (old, ap (λ x. x.already_member) (admit-eq-ok (ground (arith, row, gone))).0))
    ]
  ]

-- The call of an invitation that is open comes down to its transaction.
accept_invitation-eq-ok :
    (actor : ℕ) (token : String) (now : ℕ) (db : Db) (i : Invitation) {a : Accepted} {db' : Db}
    → find_token token db.invitations ≡ some i
    → accept_invitation actor token now db ≡ (ok a, db')
    → (is_revoked i.status ≡ false)
      × (is_expired i.status ≡ false)
      × (join actor i now db ≡ ok (a, db'))
unfolding accept_invitation
accept_invitation-eq-ok actor token now db i there h = elim (Bool-cases (is_revoked i.status)) [
  | inl r ↦ absurd (ground (arith, there, r))
  | inr r ↦ elim (Result-cases (join actor i now db)) [
    | inl ((b, db1), e) ↦ (r, ground (arith, there, r, e), ground (arith, there, r, e))
    | inr (x, e) ↦ absurd (ground (arith, there, r, e))
  ]
]

pub find_member-admitted :
    (actor : ℕ) (i : Invitation) (ms : List Member)
    → find_member i.event_id actor (upsert_member (admitted i actor) (readmit i) ms)
      ≡ some (upserted (admitted i actor) (readmit i) (find_member i.event_id actor ms))
find_member-admitted actor i ms =
    find_member-upsert_member i.event_id actor (admitted i actor) (readmit i) ms (λ m. (refl, refl))
    ∙ rw (==_refl i.event_id, ==_refl actor) refl

-- What a newcomer's call leaves of its invitation, with the row of its place.
accept_invitation-eq-admitted :
    (actor : ℕ) (token : String) (now : ℕ) (db : Db) (i : Invitation) {a : Accepted} {db' : Db}
    → find_token token db.invitations ≡ some i
    → accept_invitation actor token now db ≡ (ok a, db')
    → a.already_member ≡ false
    → (a.role ≡ i.role)
      × (i.uses + 1 ≤ i.max_uses)
      × ((m : Member) × (find_member i.event_id actor db'.members ≡ some m)
          × (m.role ≡ i.role)
          × (m.status ≡ joined))
      × (find_token token db'.invitations ≡ some (use_once i actor now i))
accept_invitation-eq-admitted actor token now db i {a} {db'} there h new =
    let (_, _, joining) = accept_invitation-eq-ok actor token now db i there h in
    let (answer, room, members, invitations) = join-eq-ok actor i now db joining new in
    (
      ap (λ x. x.role) answer,
      omega arith,
      admitted_row (find_member i.event_id actor db.members)
          (ap (find_member i.event_id actor) members ∙ find_member-admitted actor i db.members),
      ap (find_token token) invitations
          ∙ find_token-map_invitation token i.id (use_once i actor now) db.invitations i (λ j. refl)
              there
          ∙ rw (==_refl i.id) refl,
    )
  where
    admitted_row :
        (old : Option Member)
        → find_member i.event_id actor db'.members
          ≡ some (upserted (admitted i actor) (readmit i) old)
        → (m : Member) × (find_member i.event_id actor db'.members ≡ some m)
          × (m.role ≡ i.role)
          × (m.status ≡ joined)
    admitted_row none e = (_, e, refl, refl)
    admitted_row (some m) e = (_, e, refl, refl)

-- The invitation `j` is `i` with one use more: accepted if that was the last one, and else pending.
abbrev pub UsedOnce : Invitation → Invitation → Type 0
UsedOnce i j =
    (j.uses ≡ i.uses + 1)
    × (((i.max_uses ≤ i.uses + 1) × (j.status ≡ accepted))
        ⊎ ((i.uses + 1 < i.max_uses) × (j.status ≡ pending)))

pub use_once-UsedOnce :
    (actor : ℕ) (now : ℕ) (i j : Invitation) → UsedOnce i (use_once i actor now j)
use_once-UsedOnce actor now i j = elim (Bool-cases (leb i.max_uses (i.uses + 1))) [
  | inl last ↦ rw last (refl, inl (ground arith, refl))
  | inr more ↦ rw more (refl, inr (ground arith, refl))
]

-- A newcomer whom an invitation admits found a use left, stands in the event with the invitation's
-- role, and has used the invitation exactly once more, never beyond its maximum; it is then accepted
-- if that was the last use and pending otherwise, and names the newcomer and the time.
pub accept_invitation_admits :
    (actor : ℕ) (token : String) (now : ℕ) (db : Db) (i : Invitation) {a : Accepted} {db' : Db}
    → find_token token db.invitations ≡ some i
    → accept_invitation actor token now db ≡ (ok a, db')
    → a.already_member ≡ false
    → (a.role ≡ i.role)
      × (i.uses + 1 ≤ i.max_uses)
      × ((m : Member) × (find_member i.event_id actor db'.members ≡ some m)
          × (m.role ≡ i.role)
          × (m.status ≡ joined))
      × ((j : Invitation) × (find_token token db'.invitations ≡ some j)
          × UsedOnce i j
          × (j.accepted_by_id ≡ some actor)
          × (j.accepted_at ≡ some now))
accept_invitation_admits actor token now db i there h new =
    let (role, room, place, used) =
      accept_invitation-eq-admitted actor token now db i there h new in
    (role, room, place, (_, used, use_once-UsedOnce actor now i i, refl, refl))

accept_invitation-member :
    (actor : ℕ) (token : String) (now : ℕ) (db : Db) (i : Invitation) (m : Member)
    → find_token token db.invitations ≡ some i
    → is_revoked i.status ≡ false
    → is_expired i.status ≡ false
    → now < i.expires_at
    → find_member i.event_id actor db.members ≡ some m
    → is_joined m.status ≡ true
    → accept_invitation actor token now db
      ≡ (ok (record { event_id = i.event_id; role = m.role; already_member = true }), db)
unfolding accept_invitation join
accept_invitation-member actor token now db i m there r x early row active = ground arith

abbrev answered : ℕ → Role → Db → Result Accepted × Db
answered ev r db = (ok (record { event_id = ev; role = r; already_member = true }), db)

still_open :
    (actor : ℕ) (now : ℕ) (i : Invitation)
    → (is_revoked (use_once i actor now i).status ≡ false)
      × (is_expired (use_once i actor now i).status ≡ false)
still_open actor now i = elim (Bool-cases (leb i.max_uses (i.uses + 1))) [
  | inl last ↦ rw last (refl, refl)
  | inr more ↦ rw more (refl, refl)
]

-- After a call that succeeded, accepting again is harmless: while the invitation has not passed its
-- time, a second call of the same actor succeeds as an existing member with the same role and changes
-- nothing.
pub accept_invitation_again :
    (actor : ℕ) (token : String) (now later : ℕ) (db : Db) (i : Invitation) {a : Accepted}
    {db' : Db}
    → find_token token db.invitations ≡ some i
    → later < i.expires_at
    → accept_invitation actor token now db ≡ (ok a, db')
    → accept_invitation actor token later db' ≡ (ok (record a { already_member = true }), db')
accept_invitation_again actor token now later db i {a} {db'} there early h =
    let (r, x, joining) = accept_invitation-eq-ok actor token now db i there h in
    elim (Bool-cases a.already_member) [
      | inl old ↦
          let (m, same, row, active, answer) = join-already actor i now db joining old in
          let again =
            accept_invitation-member actor token later db i m there r x early row active in
          rw (same, answer) again
      | inr new ↦
          let (answer, _, _, _) = join-eq-ok actor i now db joining new in
          let (role, _, (m, row, its_role, active), used) =
            accept_invitation-eq-admitted actor token now db i there h new in
          let again =
            accept_invitation-member actor token later db' (use_once i actor now i) m used
              (still_open actor now i).0 (still_open actor now i).1 early row
              (ap is_joined active) in
          rw answer (again ∙ ap (λ r'. answered i.event_id r' db') its_role)
    ]
