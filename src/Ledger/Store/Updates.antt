-- ===== src/Ledger/Store/Updates.antt =====
-- What the reads of the ledger's tables return after an update.
use akabbo.Prelude.{
  ℕ, ◌≡◌, refl, inl, inr, Option, none, some, List, [], ◌∷◌, arith, if◌then◌else◌, Bool-cases,
}
use akabbo.Prelude.Int.{ℤ, ◌+ℤ◌, +ℤ_comm, +ℤ_assoc}
use akabbo.Ledger.Tables.{Pledge, Fulfillment}
use akabbo.Ledger.Store.{
  is_row, find_pledge, find_fulfillment, sum_fulfillments, sum_excluding, map_pledge,
  map_fulfillment,
}

abbrev pub map_option {ℓ} : {A : Type ℓ} → (A → A) → Option A → Option A
map_option g none = none
map_option g (some a) = some (g a)

-- `g` leaves the event and the id of a pledge alone.
abbrev pub KeepsKey : (Pledge → Pledge) → Type 0
KeepsKey g = (p : Pledge) → ((g p).event_id ≡ p.event_id) × ((g p).id ≡ p.id)

pub find_pledge-map_pledge :
    (ev id ev' id' : ℕ) (g : Pledge → Pledge) (ps : List Pledge)
    → KeepsKey g
    → find_pledge ev' id' (map_pledge ev id g ps) ≡ (
        if is_row ev id ev' id'
        then map_option g (find_pledge ev' id' ps)
        else find_pledge ev' id' ps)
unfolding find_pledge map_pledge
find_pledge-map_pledge ev id ev' id' g [] k = ground arith
find_pledge-map_pledge ev id ev' id' g (p ∷ ps) k =
    ground (arith, k p, find_pledge-map_pledge ev id ev' id' g ps k)

-- No two rows of one event share an id: the primary key.
abbrev pub UniqueIds : List Fulfillment → Type 0
UniqueIds [] = Unit
UniqueIds (f ∷ fs) = (find_fulfillment f.event_id f.id fs ≡ none) × UniqueIds fs

-- A new value for one fulfillment.
abbrev pub revalue : ℤ → Fulfillment → Fulfillment
revalue v f = record f { value = v }

pub find_fulfillment-revalue-none :
    (ev id ev' id' : ℕ) (v : ℤ) (fs : List Fulfillment)
    → find_fulfillment ev' id' fs ≡ none
    → find_fulfillment ev' id' (map_fulfillment ev id (revalue v) fs) ≡ none
unfolding find_fulfillment map_fulfillment
find_fulfillment-revalue-none ev id ev' id' v [] h = refl
find_fulfillment-revalue-none ev id ev' id' v (f ∷ fs) h =
    ground (arith, find_fulfillment-revalue-none ev id ev' id' v fs)

pub revalue-UniqueIds :
    (ev id : ℕ) (v : ℤ) (fs : List Fulfillment)
    → UniqueIds fs
    → UniqueIds (map_fulfillment ev id (revalue v) fs)
unfolding map_fulfillment
revalue-UniqueIds ev id v [] u = tt
revalue-UniqueIds ev id v (f ∷ fs) u = ground (
  arith,
  revalue-UniqueIds ev id v fs u.1,
  find_fulfillment-revalue-none ev id f.event_id f.id v fs u.0,
)

-- Where the event has no such fulfillment nothing changes.
pub sum_fulfillments-revalue_absent :
    (ev id ev' pid : ℕ) (v : ℤ) (fs : List Fulfillment)
    → find_fulfillment ev id fs ≡ none
    → sum_fulfillments ev' pid (map_fulfillment ev id (revalue v) fs) ≡ sum_fulfillments ev' pid fs
unfolding find_fulfillment map_fulfillment sum_fulfillments
sum_fulfillments-revalue_absent ev id ev' pid v [] h = refl
sum_fulfillments-revalue_absent ev id ev' pid v (f ∷ fs) h =
    ground (arith, sum_fulfillments-revalue_absent ev id ev' pid v fs)

-- Excluding a row that is not there is excluding nothing.
pub sum_excluding_absent :
    (ev id pid : ℕ) (fs : List Fulfillment)
    → find_fulfillment ev id fs ≡ none
    → sum_excluding ev pid (some id) fs ≡ sum_fulfillments ev pid fs
unfolding find_fulfillment sum_excluding sum_fulfillments
sum_excluding_absent ev id pid [] h = refl
sum_excluding_absent ev id pid (f ∷ fs) h = ground (arith, sum_excluding_absent ev id pid fs)

pub sum_excluding_nothing :
    (ev pid : ℕ) (fs : List Fulfillment) → sum_excluding ev pid none fs ≡ sum_fulfillments ev pid fs
unfolding sum_excluding sum_fulfillments
sum_excluding_nothing ev pid [] = refl
sum_excluding_nothing ev pid (f ∷ fs) = ground (arith, sum_excluding_nothing ev pid fs)

-- The sum over a pledge after one of its fulfillments has a new value is the sum over the others
-- and the new value; the sums over all other pledges stay.
pub sum_fulfillments-revalue :
    (ev id ev' pid : ℕ) (v : ℤ) (cur : Fulfillment) (fs : List Fulfillment)
    → UniqueIds fs
    → find_fulfillment ev id fs ≡ some cur
    → sum_fulfillments ev' pid (map_fulfillment ev id (revalue v) fs) ≡ (
        if is_row ev cur.pledge_id ev' pid
        then sum_excluding ev' pid (some id) fs +ℤ v
        else sum_fulfillments ev' pid fs)
unfolding find_fulfillment map_fulfillment sum_fulfillments sum_excluding
sum_fulfillments-revalue ev id ev' pid v cur [] u h = cc
sum_fulfillments-revalue ev id ev' pid v cur (f ∷ fs) u h =
    elim (Bool-cases (is_row ev id f.event_id f.id)) [
      | inl here ↦ ground (
        arith,
        sum_fulfillments-revalue_absent f.event_id f.id ev' pid v fs u.0,
        sum_excluding_absent f.event_id f.id pid fs u.0,
        +ℤ_comm v (sum_fulfillments f.event_id pid fs),
      )
      | inr elsewhere ↦ ground (
        arith,
        sum_fulfillments-revalue ev id ev' pid v cur fs u.1,
        +ℤ_assoc f.value (sum_excluding ev' pid (some id) fs) v,
      )
    ]
