-- ===== src/Prelude/Tx.antt =====
-- A database transaction over a state `S`: a body that throws leaves no trace, since the caller of
-- `prisma.$transaction` sees a rollback; a body that returns hands back the new state.
use akabbo.Prelude.Result.{Error, Result, ok, err, Result-cases}
use mathlib.Core.Logic.{inl, inr}
use native.Mathlib.Omega.{arith}
use mathlib.Core.Path.{◌≡◌}
use mathlib.Core.Bool.{Bool, true, false}
use mathlib.Core.Option.{Option, none, some}

abbrev pub Tx : Type 0 → Type 0 → Type 0
Tx S A = S → Result (A × S)

infixl 5 ◌>>=◌ ◌>>◌
abbrev pub ◌>>=◌ : {S A B : Type 0} → Tx S A → (A → Tx S B) → Tx S B
◌>>=◌ m f s = elim (m s) [ err e ↦ err e | ok (a, s') ↦ f a s' ]

abbrev pub ◌>>◌ : {S A B : Type 0} → Tx S A → Tx S B → Tx S B
m >> k = m >>= λ _. k

module _ {S A : Type 0} where
  abbrev pub pure : A → Tx S A
  pure a s = ok (a, s)

  abbrev pub throw : Error → Tx S A
  throw e s = err e

  abbrev pub gets : (S → A) → Tx S A
  gets f s = ok (f s, s)

  -- a step that touches no table
  abbrev pub lift : Result A → Tx S A
  lift (ok a) s = ok (a, s)
  lift (err e) s = err e

  -- `if (!o) throw e`
  abbrev pub found : Option A → Error → Tx S A
  found none e s = err e
  found (some a) e s = ok (a, s)

module _ {S : Type 0} where
  abbrev pub modify : (S → S) → Tx S (Unit {0})
  modify f s = ok (tt, f s)

  -- `if (b) throw e`
  abbrev pub throw_if : Bool → Error → Tx S (Unit {0})
  throw_if true e s = err e
  throw_if false e s = ok (tt, s)

-- Inversion of a bind that returned.
pub >>=-eq-ok :
    {S A B : Type 0} (m : Tx S A) (f : A → Tx S B) (s : S) {r : B × S}
    → (m >>= f) s ≡ ok r
    → (a : A) × (s' : S) × (m s ≡ ok (a, s')) × (f a s' ≡ ok r)
>>=-eq-ok m f s h = elim (Result-cases (m s)) [
  | inl ((a, s'), e) ↦ (a, s', e, ground arith)
  | inr (e, bad) ↦ absurd (ground arith)
]
