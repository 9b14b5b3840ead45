-- ===== src/Transparency/Contributors/Lists.antt =====
-- The pledges that each contributor is shown with.
use akabbo.Prelude.{
  ℕ, ◌==◌, ◌≡◌, refl, Bool, not, ◌&&◌, some, none, List, [], ◌∷◌, ◌++◌, map, arith, ◌∙◌, sym,
  Bool-cases, leb, true, inl, inr, if◌then◌else◌, or_else,
}
use akabbo.Prelude.Int.{ℤ, pos, ◌+ℤ◌, int_laws, +ℤ_assoc, +ℤ-zero, zero-+ℤ}
use akabbo.Ledger.Money.{money_to_string}
use akabbo.Ledger.Status.{outstanding}
use akabbo.Ledger.Store.{is_row, sum_fulfillments}
use akabbo.Ledger.Tables.{Db, Pledge, Fulfillment}
use akabbo.Comms.Recipients.{is_cancelled, any_id}
use akabbo.Transparency.Contributors.{
  PublicPledgeEntry, Breakdown, get, push, collect, pledge_entry, payments_of, pledges_of,
  build_pledge_breakdown, insert_payment, sum_values, payment_view, outstanding_text,
  contributor_status,
}
use mathlib.Core.List.{reverse, reverse-cons, reverse-append, append_assoc, append-nil}

-- What a pledge is shown with: its status and what is left of it go by the total that the ledger has
-- for the pledge.
abbrev pub entry_of : ℕ → Bool → List Fulfillment → Pledge → PublicPledgeEntry
entry_of ev show fs p = record {
  type = p.type;
  committed_value = money_to_string p.committed_value;
  description = p.description;
  status = contributor_status p.committed_value (sum_fulfillments ev p.id fs);
  outstanding =
      if show
      then some (money_to_string (outstanding p.committed_value (sum_fulfillments ev p.id fs)))
      else none;
  payments = map payment_view (payments_of ev p.id fs);
}

-- The entries of one person among the pledges, in their order: those of the event's pledges that are
-- the person's and not cancelled.
unfoldable pub entries_for : ℕ → Bool → List Fulfillment → ℕ → List Pledge → List PublicPledgeEntry
entries_for ev show fs person [] = []
entries_for ev show fs person (p ∷ ps) =
    let rest = entries_for ev show fs person ps in
    if (p.event_id == ev) && (p.person_id == person) && not (is_cancelled p.status)
    then entry_of ev show fs p ∷ rest
    else rest

sum_of : List Fulfillment → ℤ
sum_of [] = pos 0
sum_of (f ∷ fs) = f.value +ℤ sum_of fs

sum_values-sum_of : (acc : ℤ) (fs : List Fulfillment) → sum_values acc fs ≡ acc +ℤ sum_of fs
unfolding sum_values sum_of
sum_values-sum_of acc [] = sym (+ℤ-zero acc)
sum_values-sum_of acc (f ∷ fs) =
    sum_values-sum_of (acc +ℤ f.value) fs ∙ +ℤ_assoc acc f.value (sum_of fs)

swap : (a b c : ℤ) → a +ℤ (b +ℤ c) ≡ b +ℤ (a +ℤ c)
swap a b c = omega int_laws

sum_of-insert_payment :
    (f : Fulfillment) (fs : List Fulfillment) → sum_of (insert_payment f fs) ≡ f.value +ℤ sum_of fs
unfolding sum_of insert_payment
sum_of-insert_payment f [] = refl
sum_of-insert_payment f (g ∷ gs) = elim (Bool-cases (leb f.occurred_at g.occurred_at)) [
  | inl first ↦ rw first refl
  | inr later ↦ rw (later, sum_of-insert_payment f gs) (swap g.value f.value (sum_of gs))
]

sum_of-payments_of :
    (ev pledge : ℕ) (fs : List Fulfillment)
    → sum_of (payments_of ev pledge fs) ≡ sum_fulfillments ev pledge fs
unfolding sum_of payments_of sum_fulfillments
sum_of-payments_of ev pledge [] = refl
sum_of-payments_of ev pledge (f ∷ fs) =
    elim (Bool-cases (is_row ev pledge f.event_id f.pledge_id)) [
      | inl own ↦ rw (own, sum_of-insert_payment, sum_of-payments_of ev pledge fs) refl
      | inr other ↦ rw (other, sum_of-payments_of ev pledge fs) refl
    ]

sum_values-payments_of :
    (ev pledge : ℕ) (fs : List Fulfillment)
    → sum_values (pos 0) (payments_of ev pledge fs) ≡ sum_fulfillments ev pledge fs
sum_values-payments_of ev pledge fs =
    sum_values-sum_of (pos 0) (payments_of ev pledge fs)
    ∙ zero-+ℤ (sum_of (payments_of ev pledge fs))
    ∙ sum_of-payments_of ev pledge fs

pledge_entry-entry_of :
    (ev : ℕ) (show : Bool) (fs : List Fulfillment) (p : Pledge)
    → pledge_entry show p (payments_of ev p.id fs) ≡ entry_of ev show fs p
unfolding pledge_entry outstanding_text
pledge_entry-entry_of ev show fs p = rw (sum_values-payments_of ev p.id fs) refl

-- What the loop has collected for one person.
collected : ℕ → Bool → List Fulfillment → ℕ → List Pledge → List PublicPledgeEntry
collected ev show fs person [] = []
collected ev show fs person (p ∷ ps) =
    let rest = collected ev show fs person ps in
    if p.person_id == person then pledge_entry show p (payments_of ev p.id fs) ∷ rest else rest

abbrev entries_at : ℕ → Breakdown → List PublicPledgeEntry
entries_at k m = or_else (get k m) []

get-push :
    (k j : ℕ) (e : PublicPledgeEntry) (m : Breakdown)
    → entries_at k (push j e m) ≡ (if j == k then entries_at k m ++ (e ∷ []) else entries_at k m)
unfolding get push
get-push k j e [] = ground arith
get-push k j e ((i, es) ∷ rest) = ground (arith, get-push k j e rest)

collect-get :
    (ev : ℕ) (show : Bool) (fs : List Fulfillment) (person : ℕ) (ps : List Pledge) (m : Breakdown)
    → entries_at person (collect ev show fs ps m)
      ≡ entries_at person m ++ collected ev show fs person ps
unfolding collect collected
collect-get ev show fs person [] m = sym (append-nil (entries_at person m))
collect-get ev show fs person (p ∷ ps) m =
    let e = pledge_entry show p (payments_of ev p.id fs) in
    ground (
      arith,
      collect-get ev show fs person ps (push p.person_id e m),
      get-push person p.person_id e m,
      append_assoc (entries_at person m) (e ∷ []) (collected ev show fs person ps),
    )

collected-append :
    (ev : ℕ) (show : Bool) (fs : List Fulfillment) (person : ℕ) (ps qs : List Pledge)
    → collected ev show fs person (ps ++ qs)
      ≡ collected ev show fs person ps ++ collected ev show fs person qs
unfolding collected
collected-append ev show fs person [] qs = refl
collected-append ev show fs person (p ∷ ps) qs =
    ground (arith, collected-append ev show fs person ps qs)

entries_for-append :
    (ev : ℕ) (show : Bool) (fs : List Fulfillment) (person : ℕ) (ps qs : List Pledge)
    → entries_for ev show fs person (ps ++ qs)
      ≡ entries_for ev show fs person ps ++ entries_for ev show fs person qs
unfolding entries_for
entries_for-append ev show fs person [] qs = refl
entries_for-append ev show fs person (p ∷ ps) qs =
    ground (arith, entries_for-append ev show fs person ps qs)

-- Of one pledge that the query may return.
collected_one :
    (ev : ℕ) (show : Bool) (fs : List Fulfillment) (person : ℕ) (ids : List ℕ) (p : Pledge)
    → any_id person ids ≡ true
    → collected ev show fs person (pledges_of ev ids (p ∷ []))
      ≡ entries_for ev show fs person (p ∷ [])
unfolding collected entries_for pledges_of
collected_one ev show fs person ids p asked =
    elim (Bool-cases
      ((p.event_id == ev) && any_id p.person_id ids && not (is_cancelled p.status))) [
        | inl read ↦ rw read (ground (arith, pledge_entry-entry_of ev show fs p, read))
        | inr unread ↦ rw unread (ground (arith, asked, unread))
      ]

pledges_of-cons :
    (ev : ℕ) (ids : List ℕ) (p : Pledge) (ps : List Pledge)
    → pledges_of ev ids (p ∷ ps) ≡ pledges_of ev ids (p ∷ []) ++ pledges_of ev ids ps
unfolding pledges_of
pledges_of-cons ev ids p ps = ground arith

reverse_one :
    (ev : ℕ) (ids : List ℕ) (p : Pledge)
    → reverse (pledges_of ev ids (p ∷ [])) ≡ pledges_of ev ids (p ∷ [])
unfolding pledges_of
reverse_one ev ids p =
    elim (Bool-cases
      ((p.event_id == ev) && any_id p.person_id ids && not (is_cancelled p.status))) [
        | inl read ↦ rw read refl
        | inr unread ↦ rw unread refl
      ]

collected-entries_for :
    (ev : ℕ) (show : Bool) (fs : List Fulfillment) (person : ℕ) (ids : List ℕ) (ps : List Pledge)
    → any_id person ids ≡ true
    → collected ev show fs person (reverse (pledges_of ev ids ps))
      ≡ entries_for ev show fs person (reverse ps)
collected-entries_for ev show fs person ids [] asked =
    unfold collected entries_for pledges_of in refl
collected-entries_for ev show fs person ids (p ∷ ps) asked =
    rw
      (
        pledges_of-cons ev ids p ps,
        reverse-append,
        reverse_one ev ids p,
        reverse-cons,
        collected-append,
        entries_for-append,
        collected-entries_for ev show fs person ids ps asked,
        collected_one ev show fs person ids p asked,
      )
      refl

-- The map that the loop builds gives each person that was asked for exactly the entries of that
-- person's own pledges in the event that are not cancelled, oldest first: none of another person, none
-- twice. Each shows its status and what is left of it by the total that the ledger has for the pledge.
pub breakdown_is_by_person :
    (ev : ℕ) (show : Bool) (ids : List ℕ) (person : ℕ) (db : Db)
    → any_id person ids ≡ true
    → or_else (get person (build_pledge_breakdown ev show ids db)) []
      ≡ entries_for ev show db.fulfillments person (reverse db.pledges)
unfolding build_pledge_breakdown get
breakdown_is_by_person ev show [] person db asked = absurd (cc asked)
breakdown_is_by_person ev show (id ∷ ids) person db asked =
    collect-get ev show db.fulfillments person (reverse (pledges_of ev (id ∷ ids) db.pledges)) []
    ∙ collected-entries_for ev show db.fulfillments person (id ∷ ids) db.pledges asked
