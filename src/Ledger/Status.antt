-- ===== src/Ledger/Status.antt =====
-- libs/ledger/src/pledge-status.ts: the derived status of a pledge, and what is outstanding.
use akabbo.Prelude.{◌≡◌, ◌↔◌, refl, ◌⊎◌, inl, inr, Bool, true, false, arith, if◌then◌else◌}
use akabbo.Prelude.Int.{ℤ, pos, ◌-ℤ◌, ◌≤ℤ◌, ◌<ℤ◌, ltb_ℤ, leb_ℤ, -ℤ_parts}

-- `PledgeStatus`
pub data PledgeStatus : Type 0 where
  pledged partially_fulfilled fulfilled cancelled : PledgeStatus

-- `deriveStatus`
unfoldable pub derive_status : ℤ → ℤ → Bool → PledgeStatus
derive_status committed total is_cancelled =
    if is_cancelled
    then cancelled
    else if leb_ℤ total (pos 0)
    then pledged
    else if leb_ℤ committed total
    then fulfilled
    else partially_fulfilled

-- `outstanding`
unfoldable pub outstanding : ℤ → ℤ → ℤ
outstanding committed total =
    let remaining = committed -ℤ total in if ltb_ℤ (pos 0) remaining then remaining else pos 0

-- For a pledge of a positive amount that is not cancelled, the derived status and the outstanding
-- amount tell one story: it is pledged exactly if nothing was received in sum, fulfilled exactly if
-- nothing is outstanding, and partially fulfilled exactly if an amount strictly between nothing and
-- the commitment is outstanding.
pub status-outstanding :
    (c t : ℤ)
    → pos 0 <ℤ c
    → ((derive_status c t false ≡ pledged) ↔ (t ≤ℤ pos 0))
      × ((derive_status c t false ≡ fulfilled) ↔ (outstanding c t ≡ pos 0))
      × ((derive_status c t false ≡ partially_fulfilled)
          ↔ ((pos 0 <ℤ outstanding c t) × (outstanding c t <ℤ c)))
unfolding derive_status outstanding
status-outstanding c t h = (
  (λ e. ground arith, λ e. ground arith),
  (λ e. ground (arith, -ℤ_parts c t), λ e. ground (arith, -ℤ_parts c t)),
  (λ e. ground (arith, -ℤ_parts c t), λ e. ground (arith, -ℤ_parts c t)),
)

-- A derived status is `cancelled`, or the one that the numbers alone give.
pub derive_status_cases :
    (c t : ℤ) (b : Bool)
    → (derive_status c t b ≡ cancelled) ⊎ (derive_status c t b ≡ derive_status c t false)
unfolding derive_status
derive_status_cases c t true = inl refl
derive_status_cases c t false = inr refl

-- A pledge that has received all of a positive commitment.
pub full : (c : ℤ) → pos 0 <ℤ c → (derive_status c c false ≡ fulfilled) × (outstanding c c ≡ pos 0)
unfolding derive_status outstanding
full c h = ground (arith, -ℤ_parts c c)
