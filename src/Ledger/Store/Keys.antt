-- ===== src/Ledger/Store/Keys.antt =====
-- The keys of the ledger's tables: the primary key of a pledge, and the foreign key of a payment.
use akabbo.Prelude.{
  ℕ, ◌≡◌, ◌∙◌, true, none, is_some, List, [], ◌∷◌, arith, Option-cases, Bool-cases, inl, inr,
}
use akabbo.Prelude.Int.{ℤ}
use akabbo.Ledger.Tables.{Pledge, Fulfillment}
use akabbo.Ledger.Store.{is_row, find_pledge, map_pledge, map_fulfillment}
use akabbo.Ledger.Store.Updates.{KeepsKey, find_pledge-map_pledge, revalue}

-- No two pledges of one event share an id.
abbrev pub UniquePledges : List Pledge → Type 0
UniquePledges [] = Unit
UniquePledges (p ∷ ps) = (find_pledge p.event_id p.id ps ≡ none) × UniquePledges ps

-- Every payment is booked on a pledge that is there, in its own event.
abbrev pub AllOwned : List Pledge → List Fulfillment → Type 0
AllOwned ps [] = Unit
AllOwned ps (f ∷ fs) = (is_some (find_pledge f.event_id f.pledge_id ps) ≡ true) × AllOwned ps fs

pub record HasKeys (ps : List Pledge) (fs : List Fulfillment) : Type 0 where
  pub unique : UniquePledges ps
  pub owned : AllOwned ps fs

module _ (ev id : ℕ) (g : Pledge → Pledge) (keeps : KeepsKey g) where
  is_some-map_pledge :
      (ev' id' : ℕ) (ps : List Pledge)
      → is_some (find_pledge ev' id' (map_pledge ev id g ps)) ≡ is_some (find_pledge ev' id' ps)
  is_some-map_pledge ev' id' ps = elim (Option-cases (find_pledge ev' id' ps)) [
    | inl gone ↦ ground (arith, find_pledge-map_pledge ev id ev' id' g ps keeps)
    | inr (p, there) ↦ ground (arith, find_pledge-map_pledge ev id ev' id' g ps keeps)
  ]

  map_pledge-UniquePledges :
      (ps : List Pledge) → UniquePledges ps → UniquePledges (map_pledge ev id g ps)
  unfolding map_pledge
  map_pledge-UniquePledges [] u = tt
  map_pledge-UniquePledges (p ∷ ps) (new, u) =
      let ih = map_pledge-UniquePledges ps u in
      ground (arith, keeps p, ih, find_pledge-map_pledge ev id p.event_id p.id g ps keeps)

  map_pledge-AllOwned :
      (ps : List Pledge) (fs : List Fulfillment)
      → AllOwned ps fs
      → AllOwned (map_pledge ev id g ps) fs
  map_pledge-AllOwned ps [] h = tt
  map_pledge-AllOwned ps (f ∷ fs) (there, h) =
      (is_some-map_pledge f.event_id f.pledge_id ps ∙ there, map_pledge-AllOwned ps fs h)

  pub map_pledge-HasKeys :
      (ps : List Pledge) (fs : List Fulfillment)
      → HasKeys ps fs
      → HasKeys (map_pledge ev id g ps) fs
  map_pledge-HasKeys ps fs k = record {
    unique = map_pledge-UniquePledges ps k.unique;
    owned = map_pledge-AllOwned ps fs k.owned;
  }

one_more-AllOwned :
    (p : Pledge) (ps : List Pledge) (fs : List Fulfillment) → AllOwned ps fs → AllOwned (p ∷ ps) fs
unfolding find_pledge
one_more-AllOwned p ps [] h = tt
one_more-AllOwned p ps (f ∷ fs) (there, h) = (ground arith, one_more-AllOwned p ps fs h)

-- A new pledge under a new id.
pub one_more-HasKeys :
    (p : Pledge) (ps : List Pledge) (fs : List Fulfillment)
    → find_pledge p.event_id p.id ps ≡ none
    → HasKeys ps fs
    → HasKeys (p ∷ ps) fs
one_more-HasKeys p ps fs new k = record {
  unique = (new, k.unique);
  owned = one_more-AllOwned p ps fs k.owned;
}

-- A new payment on a pledge that is there.
pub paid-HasKeys :
    (f : Fulfillment) (ps : List Pledge) (fs : List Fulfillment)
    → is_some (find_pledge f.event_id f.pledge_id ps) ≡ true
    → HasKeys ps fs
    → HasKeys ps (f ∷ fs)
paid-HasKeys f ps fs there k = record { unique = k.unique; owned = (there, k.owned) }

revalue-AllOwned :
    (ev id : ℕ) (v : ℤ) (ps : List Pledge) (fs : List Fulfillment)
    → AllOwned ps fs
    → AllOwned ps (map_fulfillment ev id (revalue v) fs)
unfolding map_fulfillment
revalue-AllOwned ev id v ps [] h = tt
revalue-AllOwned ev id v ps (f ∷ fs) (there, h) =
    let ih = revalue-AllOwned ev id v ps fs h in
    elim (Bool-cases (is_row ev id f.event_id f.id)) [
      | inl here ↦ rw here (there, ih)
      | inr elsewhere ↦ rw elsewhere (there, ih)
    ]

pub revalue-HasKeys :
    (ev id : ℕ) (v : ℤ) (ps : List Pledge) (fs : List Fulfillment)
    → HasKeys ps fs
    → HasKeys ps (map_fulfillment ev id (revalue v) fs)
revalue-HasKeys ev id v ps fs k = record {
  unique = k.unique;
  owned = revalue-AllOwned ev id v ps fs k.owned;
}
