-- ===== src/Transparency/Contributors/Private.antt =====
-- What of a person, a pledge and a payment the public page has no use for, and that the lists of the
-- page are built without it.
use akabbo.Prelude.{
  ℕ, ◌==◌, leb, ◌≡◌, refl, Bool, false, not, ◌&&◌, none, some, List, [], ◌∷◌, map, arith, ap, ◌∙◌,
  Option-cases, inl, inr, Bool-cases,
}
use akabbo.Prelude.Int.{ℤ, pos, ◌+ℤ◌}
use akabbo.Ledger.Store.{is_row, find_person, find_pledge}
use akabbo.Ledger.Tables.{Db, Person, Pledge, Fulfillment, human_typed, unknown, reported}
use akabbo.Comms.Recipients.{is_cancelled, committed_by, received_from, any_id}
use akabbo.Transparency.Tables.{
  ContributorVisibility, names_and_amounts, names_only, aggregate_only,
}
use akabbo.Transparency.Contributors.{
  PersonRow, people_rows, build_contributors, insert_payment, payments_of, sum_values, payment_view,
  pledge_entry, Breakdown, collect, push, pledges_of, build_pledge_breakdown, row_id, top_rows,
  full_view,
}
use akabbo.Transparency.Activity.{activity_of, activities, build_recent_activity}
use mathlib.Core.Option.{map as map_option}
use mathlib.Core.List.{reverse, reverse-cons, map-append}

-- The row without its private columns.
unfoldable pub bare_person : Person → Person
bare_person p = record p { phone = none; user_id = none; source = human_typed; created_by = 0 }

unfoldable pub bare_pledge : Pledge → Pledge
bare_pledge p = record p {
  target_budget_item_id = none;
  quantity = none;
  unit = none;
  estimated_value = none;
  is_direct = false;
  source = human_typed;
  created_by = 0;
}

unfoldable pub bare_fulfillment : Fulfillment → Fulfillment
bare_fulfillment f = record f {
  currency = "";
  method = unknown;
  verification_status = reported;
  note = none;
  idempotency_key = none;
  source = human_typed;
  created_by = 0;
  created_at = 0;
}

-- The ledger without them, and without its audit trail and outbox.
unfoldable pub bare_ledger : Db → Db
unfolding bare_person bare_pledge bare_fulfillment
bare_ledger db = record {
  people = map bare_person db.people;
  pledges = map bare_pledge db.pledges;
  fulfillments = map bare_fulfillment db.fulfillments;
  audit = [];
  outbox = [];
}

committed_by-bare :
    (ev person : ℕ) (ps : List Pledge)
    → committed_by ev person (map bare_pledge ps) ≡ committed_by ev person ps
unfolding committed_by bare_pledge
committed_by-bare ev person [] = refl
committed_by-bare ev person (p ∷ ps) = ground (arith, committed_by-bare ev person ps)

find_pledge-bare :
    (ev id : ℕ) (ps : List Pledge)
    → find_pledge ev id (map bare_pledge ps) ≡ map_option bare_pledge (find_pledge ev id ps)
unfolding find_pledge bare_pledge
find_pledge-bare ev id [] = refl
find_pledge-bare ev id (p ∷ ps) = elim (Bool-cases (is_row ev id p.event_id p.id)) [
  | inl here ↦ rw here refl
  | inr there ↦ rw there (find_pledge-bare ev id ps)
]

find_person-bare :
    (ev id : ℕ) (ps : List Person)
    → find_person ev id (map bare_person ps) ≡ map_option bare_person (find_person ev id ps)
unfolding find_person bare_person
find_person-bare ev id [] = refl
find_person-bare ev id (p ∷ ps) = elim (Bool-cases (is_row ev id p.event_id p.id)) [
  | inl here ↦ rw here refl
  | inr there ↦ rw there (find_person-bare ev id ps)
]

received_from-bare :
    (ev person : ℕ) (ps : List Pledge) (fs : List Fulfillment)
    → received_from ev person (map bare_pledge ps) (map bare_fulfillment fs)
      ≡ received_from ev person ps fs
unfolding received_from bare_fulfillment bare_pledge
received_from-bare ev person ps [] = refl
received_from-bare ev person ps (f ∷ fs) = elim (Option-cases (find_pledge ev f.pledge_id ps)) [
  | inl missing ↦
      rw (find_pledge-bare ev f.pledge_id ps, missing)
        (ground (arith, received_from-bare ev person ps fs))
  | inr (p, there) ↦
      rw (find_pledge-bare ev f.pledge_id ps, there)
        (ground (arith, received_from-bare ev person ps fs))
]

pub people_rows-bare :
    (ev : ℕ) (db : Db) (ps : List Person)
    → people_rows ev (bare_ledger db) (map bare_person ps) ≡ people_rows ev db ps
unfolding people_rows bare_person bare_ledger
people_rows-bare ev db [] = refl
people_rows-bare ev db (p ∷ ps) = ground (
  arith,
  committed_by-bare ev p.id db.pledges,
  received_from-bare ev p.id db.pledges db.fulfillments,
  people_rows-bare ev db ps,
)

-- The payments of a pledge.
insert_payment-bare :
    (f : Fulfillment) (gs : List Fulfillment)
    → insert_payment (bare_fulfillment f) (map bare_fulfillment gs)
      ≡ map bare_fulfillment (insert_payment f gs)
unfolding insert_payment bare_fulfillment
insert_payment-bare f [] = refl
insert_payment-bare f (g ∷ gs) = elim (Bool-cases (leb f.occurred_at g.occurred_at)) [
  | inl here ↦ rw here refl
  | inr there ↦ rw there (ap (λ r. bare_fulfillment g ∷ r) (insert_payment-bare f gs))
]

payments_of-bare :
    (ev pledge : ℕ) (fs : List Fulfillment)
    → payments_of ev pledge (map bare_fulfillment fs)
      ≡ map bare_fulfillment (payments_of ev pledge fs)
unfolding payments_of bare_fulfillment
payments_of-bare ev pledge [] = refl
payments_of-bare ev pledge (f ∷ fs) = elim (Bool-cases (is_row ev pledge f.event_id f.pledge_id)) [
  | inl here ↦
      rw (here, payments_of-bare ev pledge fs) (insert_payment-bare f (payments_of ev pledge fs))
  | inr there ↦ rw there (payments_of-bare ev pledge fs)
]

sum_values-bare :
    (sum : ℤ) (fs : List Fulfillment) → sum_values sum (map bare_fulfillment fs) ≡ sum_values sum fs
unfolding sum_values bare_fulfillment
sum_values-bare sum [] = refl
sum_values-bare sum (f ∷ fs) = sum_values-bare (sum +ℤ f.value) fs

payment_view-bare :
    (fs : List Fulfillment) → map payment_view (map bare_fulfillment fs) ≡ map payment_view fs
unfolding payment_view bare_fulfillment
payment_view-bare [] = refl
payment_view-bare (f ∷ fs) = ap (λ r. payment_view f ∷ r) (payment_view-bare fs)

pledge_entry-bare :
    (show : Bool) (p : Pledge) (fs : List Fulfillment)
    → pledge_entry show (bare_pledge p) (map bare_fulfillment fs) ≡ pledge_entry show p fs
unfolding pledge_entry bare_pledge
pledge_entry-bare show p fs = rw (sum_values-bare (pos 0) fs, payment_view-bare fs) refl

entry-bare :
    (ev : ℕ) (show : Bool) (p : Pledge) (fs : List Fulfillment)
    → pledge_entry show
        (bare_pledge p)
        (payments_of ev (bare_pledge p).id (map bare_fulfillment fs))
      ≡ pledge_entry show p (payments_of ev p.id fs)
entry-bare ev show p fs =
    unfold bare_pledge in
    rw (payments_of-bare ev p.id fs) (pledge_entry-bare show p (payments_of ev p.id fs))

-- The breakdown by person.
collect-bare :
    (ev : ℕ) (show : Bool) (fs : List Fulfillment) (ps : List Pledge) (m : Breakdown)
    → collect ev show (map bare_fulfillment fs) (map bare_pledge ps) m ≡ collect ev show fs ps m
unfolding collect bare_pledge
collect-bare ev show fs [] m = refl
collect-bare ev show fs (p ∷ ps) m =
    collect-bare ev show fs ps (
      push p.person_id
        (pledge_entry show (bare_pledge p) (payments_of ev p.id (map bare_fulfillment fs))) m)
    ∙ ap (λ e. collect ev show fs ps (push p.person_id e m)) (entry-bare ev show p fs)

pledges_of-bare :
    (ev : ℕ) (ids : List ℕ) (ps : List Pledge)
    → pledges_of ev ids (map bare_pledge ps) ≡ map bare_pledge (pledges_of ev ids ps)
unfolding pledges_of bare_pledge
pledges_of-bare ev ids [] = refl
pledges_of-bare ev ids (p ∷ ps) =
    elim (Bool-cases
      ((p.event_id == ev) && any_id p.person_id ids && not (is_cancelled p.status))) [
        | inl here ↦ rw here (ap (λ r. bare_pledge p ∷ r) (pledges_of-bare ev ids ps))
        | inr there ↦ rw there (pledges_of-bare ev ids ps)
      ]

reverse-map : (g : Pledge → Pledge) (ps : List Pledge) → reverse (map g ps) ≡ map g (reverse ps)
reverse-map g [] = refl
reverse-map g (p ∷ ps) = rw (reverse-cons, reverse-map g ps, reverse-cons, map-append) refl

pub build_pledge_breakdown-bare :
    (ev : ℕ) (show : Bool) (ids : List ℕ) (db : Db)
    → build_pledge_breakdown ev show ids (bare_ledger db) ≡ build_pledge_breakdown ev show ids db
unfolding build_pledge_breakdown bare_ledger
build_pledge_breakdown-bare ev show [] db = refl
build_pledge_breakdown-bare ev show (id ∷ ids) db =
    rw
      (
        pledges_of-bare ev (id ∷ ids) db.pledges,
        reverse-map bare_pledge (pledges_of ev (id ∷ ids) db.pledges),
      )
      (collect-bare ev show db.fulfillments (reverse (pledges_of ev (id ∷ ids) db.pledges)) [])

pub build_contributors-bare :
    (ev : ℕ) (people : List PersonRow) (vis : ContributorVisibility) (show : Bool) (db : Db)
    → build_contributors ev people vis show (bare_ledger db)
      ≡ build_contributors ev people vis show db
unfolding build_contributors
build_contributors-bare ev people ContributorVisibility.hidden show db = refl
build_contributors-bare ev people aggregate_only show db = refl
build_contributors-bare ev people names_only show db = refl
build_contributors-bare ev people names_and_amounts show db =
    ap (λ m. some (map (full_view show m) (top_rows people)))
      (build_pledge_breakdown-bare ev show (map row_id (top_rows people)) db)

-- The recent payments.
activity_of-bare :
    (ev : ℕ) (db : Db) (f : Fulfillment)
    → activity_of ev (bare_ledger db) (bare_fulfillment f) ≡ activity_of ev db f
unfolding activity_of bare_ledger bare_fulfillment bare_pledge bare_person
activity_of-bare ev db f = elim (Option-cases (find_pledge ev f.pledge_id db.pledges)) [
  | inl missing ↦ ground (arith, missing, find_pledge-bare ev f.pledge_id db.pledges)
  | inr (p, there) ↦ elim (Option-cases (find_person ev p.person_id db.people)) [
    | inl nobody ↦ ground (
      arith,
      find_pledge-bare ev f.pledge_id db.pledges,
      find_person-bare ev p.person_id db.people,
    )
    | inr (q, somebody) ↦ ground (
      arith,
      find_pledge-bare ev f.pledge_id db.pledges,
      find_person-bare ev p.person_id db.people,
    )
  ]
]

activities-bare :
    (ev : ℕ) (db : Db) (fs : List Fulfillment)
    → activities ev (bare_ledger db) (map bare_fulfillment fs) ≡ activities ev db fs
unfolding activities bare_fulfillment
activities-bare ev db [] = refl
activities-bare ev db (f ∷ fs) = ground (arith, activity_of-bare ev db f, activities-bare ev db fs)

pub build_recent_activity-bare :
    (ev : ℕ) (db : Db) → build_recent_activity ev (bare_ledger db) ≡ build_recent_activity ev db
unfolding build_recent_activity bare_ledger
build_recent_activity-bare ev db = rw (activities-bare ev db db.fulfillments) refl
