-- ===== src/Reports/Contributors/Sums.antt =====
-- The loops of a report against the sums of the database.
use akabbo.Prelude.{
  ℕ, ◌==◌, ◌≡◌, refl, Bool, true, false, ◌&&◌, String, none, some, List, [], ◌∷◌, arith, ap, ◌∙◌,
  sym, Bool-cases, inl, inr, if◌then◌else◌,
}
use akabbo.Prelude.Int.{ℤ, pos, ◌+ℤ◌, int_laws, +ℤ_assoc, zero-+ℤ, +ℤ-zero}
use akabbo.Ledger.Store.{is_row, find_pledge}
use akabbo.Ledger.Tables.{Pledge, Fulfillment, Person}
use akabbo.Comms.Recipients.{counts_for, committed_by, received_from}
use akabbo.Book.Tables.{Db}
use akabbo.Reports.Rows.{add_payments, add_in_kind, add_pledges, contributor_row}

-- Does a pledge of the event have the id? And no two have one id.
abbrev pub has_id : ℕ → ℕ → List Pledge → Bool
has_id ev id [] = false
has_id ev id (p ∷ ps) = if is_row ev id p.event_id p.id then true else has_id ev id ps

abbrev pub IdsDiffer : ℕ → List Pledge → Type 0
IdsDiffer ev [] = Unit {0}
IdsDiffer ev (p ∷ ps) = ((p.event_id == ev) ≡ true → has_id ev p.id ps ≡ false) × IdsDiffer ev ps

-- The payments on one pledge.
paid_on : ℕ → ℕ → List Fulfillment → ℤ
paid_on ev pledge [] = pos 0
paid_on ev pledge (f ∷ fs) =
    if is_row ev pledge f.event_id f.pledge_id
    then f.value +ℤ paid_on ev pledge fs
    else paid_on ev pledge fs

-- The payments on the pledges of a person that count.
paid_by : ℕ → ℕ → List Fulfillment → List Pledge → ℤ
paid_by ev person fs [] = pos 0
paid_by ev person fs (p ∷ ps) =
    if counts_for ev person p
    then paid_on ev p.id fs +ℤ paid_by ev person fs ps
    else paid_by ev person fs ps

add_payments-paid_on :
    (ev pledge : ℕ) (fs : List Fulfillment) (acc : ℤ)
    → add_payments ev pledge fs acc ≡ acc +ℤ paid_on ev pledge fs
unfolding add_payments paid_on
add_payments-paid_on ev pledge [] acc = sym (+ℤ-zero acc)
add_payments-paid_on ev pledge (f ∷ fs) acc =
    elim (Bool-cases (is_row ev pledge f.event_id f.pledge_id)) [
      | inl here ↦ rw here (
          add_payments-paid_on ev pledge fs (acc +ℤ f.value)
          ∙ +ℤ_assoc acc f.value (paid_on ev pledge fs))
      | inr there ↦ rw there (add_payments-paid_on ev pledge fs acc)
    ]

add_pledges-committed :
    (ev person : ℕ) (fs : List Fulfillment) (ps : List Pledge) (c r : ℤ) (k : List String)
    → (add_pledges ev person fs ps (c, r, k)).0 ≡ c +ℤ committed_by ev person ps
unfolding add_pledges committed_by
add_pledges-committed ev person fs [] c r k = sym (+ℤ-zero c)
add_pledges-committed ev person fs (p ∷ ps) c r k = ground (
  arith,
  add_pledges-committed ev person fs ps (c +ℤ p.committed_value) (add_payments ev p.id fs r)
      (add_in_kind p k),
  add_pledges-committed ev person fs ps c r k,
  +ℤ_assoc c p.committed_value (committed_by ev person ps),
)

add_pledges-received :
    (ev person : ℕ) (fs : List Fulfillment) (ps : List Pledge) (c r : ℤ) (k : List String)
    → (add_pledges ev person fs ps (c, r, k)).1 ≡ r +ℤ paid_by ev person fs ps
unfolding add_pledges paid_by
add_pledges-received ev person fs [] c r k = sym (+ℤ-zero r)
add_pledges-received ev person fs (p ∷ ps) c r k = ground (
  arith,
  add_pledges-received ev person fs ps (c +ℤ p.committed_value) (add_payments ev p.id fs r)
      (add_in_kind p k),
  add_pledges-received ev person fs ps c r k,
  add_payments-paid_on ev p.id fs r,
  +ℤ_assoc r (paid_on ev p.id fs) (paid_by ev person fs ps),
)

swap : (v a b : ℤ) → a +ℤ (v +ℤ b) ≡ v +ℤ (a +ℤ b)
swap v a b = omega int_laws

paid_by-absent :
    (ev person : ℕ) (f : Fulfillment) (fs : List Fulfillment) (ps : List Pledge)
    → has_id ev f.pledge_id ps ≡ false
    → paid_by ev person (f ∷ fs) ps ≡ paid_by ev person fs ps
unfolding paid_by paid_on
paid_by-absent ev person f fs [] h = refl
paid_by-absent ev person f fs (p ∷ ps) h = ground (arith, paid_by-absent ev person f fs ps)

-- What one payment adds to the sum over the pledges: its value if its pledge counts.
paid_by-cons :
    (ev person : ℕ) (f : Fulfillment) (fs : List Fulfillment) (ps : List Pledge)
    → IdsDiffer ev ps
    → paid_by ev person (f ∷ fs) ps ≡ (
        if (f.event_id == ev)
          && elim (find_pledge ev f.pledge_id ps) [ none ↦ false | some p ↦ counts_for ev person p ]
        then f.value +ℤ paid_by ev person fs ps
        else paid_by ev person fs ps)
unfolding paid_by paid_on find_pledge
paid_by-cons ev person f fs [] d = ground arith
paid_by-cons ev person f fs (p ∷ ps) (first, d) =
    elim (Bool-cases (is_row ev f.pledge_id p.event_id p.id)) [
      | inl here ↦
          let same : p.id ≡ f.pledge_id = ground arith in
          ground (
            arith,
            rw same at (first (ground arith)),
            paid_by-absent ev person f fs ps,
            +ℤ_assoc f.value (paid_on ev p.id fs) (paid_by ev person fs ps),
          )
      | inr there ↦ ground (
        arith,
        paid_by-cons ev person f fs ps d,
        swap f.value (paid_on ev p.id fs) (paid_by ev person fs ps),
      )
    ]

paid_by-nil : (ev person : ℕ) (ps : List Pledge) → paid_by ev person [] ps ≡ pos 0
unfolding paid_by paid_on
paid_by-nil ev person [] = refl
paid_by-nil ev person (p ∷ ps) = ground (arith, paid_by-nil ev person ps, zero-+ℤ (pos 0))

paid_by-received_from :
    (ev person : ℕ) (ps : List Pledge) (fs : List Fulfillment)
    → IdsDiffer ev ps
    → paid_by ev person fs ps ≡ received_from ev person ps fs
unfolding received_from
paid_by-received_from ev person ps [] d = paid_by-nil ev person ps
paid_by-received_from ev person ps (f ∷ fs) d =
    paid_by-cons ev person f fs ps d
    ∙ ap
        (λ t.
          if (f.event_id == ev) && elim (find_pledge ev f.pledge_id ps) [
            | none ↦ false
            | some p ↦ counts_for ev person p
          ]
          then f.value +ℤ t
          else t)
        (paid_by-received_from ev person ps fs d)

-- Where no two pledges of the event have one id, a row of a report has what the queries of the database
-- say of the person: the sum of the commitments that are not cancelled, and the sum of all payments on
-- them.
pub contributor_row_sums :
    (ev : ℕ) (db : Db) (p : Person)
    → IdsDiffer ev db.ledger.pledges
    → ((contributor_row ev db p).committed ≡ committed_by ev p.id db.ledger.pledges)
      × ((contributor_row ev db p).received
          ≡ received_from ev p.id db.ledger.pledges db.ledger.fulfillments)
unfolding contributor_row
contributor_row_sums ev db p d =
    let fs = db.ledger.fulfillments in
    let ps = db.ledger.pledges in
    (
      add_pledges-committed ev p.id fs ps (pos 0) (pos 0) [] ∙ zero-+ℤ (committed_by ev p.id ps),
      add_pledges-received ev p.id fs ps (pos 0) (pos 0) []
          ∙ zero-+ℤ (paid_by ev p.id fs ps)
          ∙ paid_by-received_from ev p.id ps fs d,
    )
