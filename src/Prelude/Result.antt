-- ===== src/Prelude/Result.antt =====
-- Exceptions as values: the result of a call that may throw, with `do` blocks.
use mathlib.Core.Path.{◌≡◌, refl}
use mathlib.Core.Logic.{◌⊎◌, inl, inr}
use mathlib.Core.Bool.{Bool, true, false}

-- What the services throw, one constructor for each reason. `unique_violation` is the database's
-- P2002, `missing_record` its P2025 (an update that finds no row).
pub data Error : Type 0 where
  not_permitted read_only not_entitled not_found bad_request : Error
  duplicate_suspected cancelled_pledge exceeds_committed : Error
  revoked expired used_up event_ceiling unauthorized conflict phone_attached token_required : Error
  unique_violation missing_record malformed_amount : Error

pub data Result {κ} (T : Type κ) : Type κ where
  err : Error → Result T
  ok : T → Result T

pub Result-cases {κ} :
    {T : Type κ} (r : Result T) → ((t : T) × (r ≡ ok t)) ⊎ ((e : Error) × (r ≡ err e))
Result-cases (err e) = inr (e, refl)
Result-cases (ok t) = inl (t, refl)

-- `if (!b) throw e`
abbrev pub require : Bool → Error → Result (Unit {0})
require b e = elim b [ true ↦ ok tt | false ↦ err e ]

infixl 5 ◌>>◌
abbrev pub ◌>>◌ {κ} : {T : Type κ} → Result (Unit {0}) → Result T → Result T
first >> rest = elim first [ err e ↦ err e | ok _ ↦ rest ]
