-- ===== src/Transparency/Page/Totals.antt =====
-- The totals of the public page against its rollup by person.
use akabbo.Prelude.{
  ℕ, suc, ◌==◌, ◌≡◌, refl, Bool, true, false, not, ◌&&◌, Option, none, some, List, [], ◌∷◌, arith,
  ap, ◌∙◌, sym, Bool-cases, Option-cases, inl, inr, if◌then◌else◌,
}
use akabbo.Prelude.Int.{ℤ, pos, ◌+ℤ◌, int_laws, +ℤ_assoc, zero-+ℤ, +ℤ-zero}
use akabbo.Ledger.Store.{find_pledge}
use akabbo.Ledger.Tables.{Db, Person, Pledge, Fulfillment}
use akabbo.Comms.Recipients.{is_cancelled, committed_by, received_from}
use akabbo.Transparency.Contributors.{PersonRow, people_rows}
use akabbo.Transparency.Page.{total_pledged, total_received}

-- The ids of the people of the event, in the order of the rollup.
unfoldable pub ids_of : ℕ → List Person → List ℕ
ids_of ev [] = []
ids_of ev (p ∷ ps) = let rest = ids_of ev ps in if p.event_id == ev then p.id ∷ rest else rest

-- How often an id stands in a list.
unfoldable pub occurrences : ℕ → List ℕ → ℕ
occurrences id [] = 0
occurrences id (i ∷ is) = let rest = occurrences id is in if id == i then suc rest else rest

times : ℕ → ℤ → ℤ
times ℕ.zero v = pos 0
times (suc n) v = v +ℤ times n v

abbrev is_owner : Option ℕ → ℕ → Bool
is_owner none id = false
is_owner (some o) id = o == id

-- Every owner stands in the list exactly once.
abbrev pub OwnedOnce : {X : Type 0} → (X → Option ℕ) → List ℕ → List X → Type 0
OwnedOnce owner ids [] = Unit {0}
OwnedOnce owner ids (x ∷ xs) =
    ((o : ℕ) → owner x ≡ some o → occurrences o ids ≡ 1) × OwnedOnce owner ids xs

module _ {X : Type 0} (owner : X → Option ℕ) (value : X → ℤ) where
  -- What stands to one id, what stands to some id, and what stands to none.
  sum_for : ℕ → List X → ℤ
  sum_for id [] = pos 0
  sum_for id (x ∷ xs) = if is_owner (owner x) id then value x +ℤ sum_for id xs else sum_for id xs

  sum_owned : List X → ℤ
  sum_owned [] = pos 0
  sum_owned (x ∷ xs) = elim (owner x) [ none ↦ sum_owned xs | some o ↦ value x +ℤ sum_owned xs ]

  sum_over : List ℕ → List X → ℤ
  sum_over [] xs = pos 0
  sum_over (id ∷ ids) xs = sum_for id xs +ℤ sum_over ids xs

  sum_over-nil : (ids : List ℕ) → sum_over ids [] ≡ pos 0
  unfolding sum_over sum_for
  sum_over-nil [] = refl
  sum_over-nil (id ∷ ids) = rw (sum_over-nil ids) (zero-+ℤ (pos 0))

  swap : (v a b : ℤ) → v +ℤ (a +ℤ b) ≡ a +ℤ (v +ℤ b)
  swap v a b = omega int_laws

  regroup : (v a t b : ℤ) → v +ℤ a +ℤ (t +ℤ b) ≡ v +ℤ t +ℤ (a +ℤ b)
  regroup v a t b = omega int_laws

  sum_over-ownerless :
      (x : X) (xs : List X) (ids : List ℕ)
      → owner x ≡ none
      → sum_over ids (x ∷ xs) ≡ sum_over ids xs
  unfolding sum_over sum_for
  sum_over-ownerless x xs [] e = refl
  sum_over-ownerless x xs (id ∷ ids) e =
      rw e (ap (λ t. sum_for id xs +ℤ t) (sum_over-ownerless x xs ids e))

  sum_over-owned :
      (x : X) (xs : List X) (o : ℕ) (ids : List ℕ)
      → owner x ≡ some o
      → sum_over ids (x ∷ xs) ≡ times (occurrences o ids) (value x) +ℤ sum_over ids xs
  unfolding sum_over sum_for occurrences times
  sum_over-owned x xs o [] e = sym (zero-+ℤ (pos 0))
  sum_over-owned x xs o (id ∷ ids) e = elim (Bool-cases (o == id)) [
    | inl here ↦
        rw (e, here, sum_over-owned x xs o ids e)
          (regroup (value x) (sum_for id xs) (times (occurrences o ids) (value x))
            (sum_over ids xs))
    | inr there ↦
        rw (e, there, sum_over-owned x xs o ids e)
          (swap (sum_for id xs) (times (occurrences o ids) (value x)) (sum_over ids xs))
  ]

  sum_over-sum_owned :
      (ids : List ℕ) (xs : List X) → OwnedOnce owner ids xs → sum_over ids xs ≡ sum_owned xs
  unfolding sum_owned times
  sum_over-sum_owned ids [] once = sum_over-nil ids
  sum_over-sum_owned ids (x ∷ xs) (first, once) = elim (Option-cases (owner x)) [
    | inl nobody ↦
        ground (arith, sum_over-ownerless x xs ids nobody, sum_over-sum_owned ids xs once)
    | inr (o, somebody) ↦ ground (
      arith,
      sum_over-owned x xs o ids somebody,
      first o somebody,
      +ℤ-zero (value x),
      sum_over-sum_owned ids xs once,
    )
  ]

-- Whose pledge this is, and whose payment: no one's if the pledge is cancelled or of another event.
unfoldable pub pledge_owner : ℕ → Pledge → Option ℕ
pledge_owner ev p =
    if (p.event_id == ev) && not (is_cancelled p.status) then some p.person_id else none

unfoldable pub payment_owner : ℕ → List Pledge → Fulfillment → Option ℕ
payment_owner ev ps f = elim (find_pledge ev f.pledge_id ps) [
  | none ↦ none
  | some p ↦ if f.event_id == ev then pledge_owner ev p else none
]

pub committed : Pledge → ℤ
committed p = p.committed_value

pub paid : Fulfillment → ℤ
paid f = f.value

committed_by-sum_for :
    (ev id : ℕ) (ps : List Pledge)
    → committed_by ev id ps ≡ sum_for (pledge_owner ev) committed id ps
unfolding committed_by sum_for pledge_owner committed
committed_by-sum_for ev id [] = refl
committed_by-sum_for ev id (p ∷ ps) = ground (arith, committed_by-sum_for ev id ps)

received_from-sum_for :
    (ev id : ℕ) (ps : List Pledge) (fs : List Fulfillment)
    → received_from ev id ps fs ≡ sum_for (payment_owner ev ps) paid id fs
unfolding received_from sum_for payment_owner pledge_owner paid
received_from-sum_for ev id ps [] = refl
received_from-sum_for ev id ps (f ∷ fs) = elim (Option-cases (find_pledge ev f.pledge_id ps)) [
  | inl missing ↦ rw missing (ground (arith, received_from-sum_for ev id ps fs))
  | inr (p, there) ↦ rw there (ground (arith, received_from-sum_for ev id ps fs))
]

total_pledged-sum_owned :
    (ev : ℕ) (ps : List Pledge) → total_pledged ev ps ≡ sum_owned (pledge_owner ev) committed ps
unfolding total_pledged sum_owned pledge_owner committed
total_pledged-sum_owned ev [] = refl
total_pledged-sum_owned ev (p ∷ ps) = ground (arith, total_pledged-sum_owned ev ps)

-- The payments of the event on pledges that are cancelled or missing.
unfoldable pub unattributed : ℕ → List Pledge → List Fulfillment → ℤ
unfolding payment_owner
unattributed ev ps [] = pos 0
unattributed ev ps (f ∷ fs) =
    if f.event_id == ev
    then (elim (payment_owner ev ps f) [
      | none ↦ f.value +ℤ unattributed ev ps fs
      | some o ↦ unattributed ev ps fs
    ])
    else unattributed ev ps fs

payment_owner-event :
    (ev o : ℕ) (ps : List Pledge) (f : Fulfillment)
    → payment_owner ev ps f ≡ some o
    → (f.event_id == ev) ≡ true
unfolding payment_owner
payment_owner-event ev o ps f h = ground arith

move : (v a b : ℤ) → v +ℤ (a +ℤ b) ≡ a +ℤ (v +ℤ b)
move v a b = omega int_laws

total_received-sum_owned :
    (ev : ℕ) (ps : List Pledge) (fs : List Fulfillment)
    → total_received ev fs ≡ sum_owned (payment_owner ev ps) paid fs +ℤ unattributed ev ps fs
unfolding total_received sum_owned unattributed paid
total_received-sum_owned ev ps [] = sym (zero-+ℤ (pos 0))
total_received-sum_owned ev ps (f ∷ fs) =
    let ih = total_received-sum_owned ev ps fs in
    let owned = sum_owned (payment_owner ev ps) paid fs in
    let rest = unattributed ev ps fs in
    elim (Option-cases (payment_owner ev ps f)) [
      | inl nobody ↦ ground (arith, ih, move f.value owned rest)
      | inr (o, somebody) ↦
          ground (arith, ih, payment_owner-event ev o ps f somebody, +ℤ_assoc f.value owned rest)
    ]

-- What the rows of the rollup add up to.
unfoldable pub sum_committed : List PersonRow → ℤ
sum_committed [] = pos 0
sum_committed (r ∷ rs) = r.committed +ℤ sum_committed rs

unfoldable pub sum_received : List PersonRow → ℤ
sum_received [] = pos 0
sum_received (r ∷ rs) = r.received +ℤ sum_received rs

sum_rows :
    (ev : ℕ) (db : Db) (people : List Person)
    → (sum_committed (people_rows ev db people)
        ≡ sum_over (pledge_owner ev) committed (ids_of ev people) db.pledges)
      × (sum_received (people_rows ev db people)
          ≡ sum_over (payment_owner ev db.pledges) paid (ids_of ev people) db.fulfillments)
unfolding sum_committed sum_received people_rows sum_over ids_of
sum_rows ev db [] = (refl, refl)
sum_rows ev db (p ∷ ps) =
    let (c, r) = sum_rows ev db ps in
    (
      ground (arith, c, committed_by-sum_for ev p.id db.pledges),
      ground (arith, r, received_from-sum_for ev p.id db.pledges db.fulfillments),
    )

-- Where each pledge of the event that is not cancelled, and each payment on such a pledge, belongs to
-- exactly one person of the event, the rollup adds up to the totals of the page: the commitments to the
-- total pledged, and what each person has paid, with the payments on pledges that are cancelled or
-- missing, to the total received.
pub rollup_totals :
    (ev : ℕ) (db : Db)
    → OwnedOnce (pledge_owner ev) (ids_of ev db.people) db.pledges
    → OwnedOnce (payment_owner ev db.pledges) (ids_of ev db.people) db.fulfillments
    → (total_pledged ev db.pledges ≡ sum_committed (people_rows ev db db.people))
      × (total_received ev db.fulfillments
          ≡ sum_received (people_rows ev db db.people)
            +ℤ unattributed ev db.pledges db.fulfillments)
rollup_totals ev db pledges payments =
    let ids = ids_of ev db.people in
    let (c, r) = sum_rows ev db db.people in
    (
      total_pledged-sum_owned ev db.pledges
          ∙ sym (sum_over-sum_owned (pledge_owner ev) committed ids db.pledges pledges)
          ∙ sym c,
      total_received-sum_owned ev db.pledges db.fulfillments
          ∙ ap (λ t. t +ℤ unattributed ev db.pledges db.fulfillments)
              (sym (
                  sum_over-sum_owned (payment_owner ev db.pledges) paid ids db.fulfillments
                    payments)
                ∙ sym r),
    )
