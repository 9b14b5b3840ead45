-- ===== src/Prelude/Io.antt =====
-- A body outside any transaction: what it wrote before it threw stays written.
use akabbo.Prelude.Result.{Error, Result, ok, err}
use mathlib.Core.Path.{◌≡◌, ap}
use mathlib.Core.Bool.{Bool, true, false}
use mathlib.Core.Option.{Option, none, some}

abbrev pub Io : Type 0 → Type 0 → Type 0
Io S A = S → Result A × S

-- What comes after a first half: nothing more where that threw.
abbrev pub continue : {S A B : Type 0} → (A → Io S B) → Result A × S → Result B × S
continue f (err e, s) = (err e, s)
continue f (ok a, s) = f a s

infixl 5 ◌>>=◌ ◌>>◌
abbrev pub ◌>>=◌ : {S A B : Type 0} → Io S A → (A → Io S B) → Io S B
◌>>=◌ m f s = continue f (m s)

abbrev pub ◌>>◌ : {S A B : Type 0} → Io S A → Io S B → Io S B
m >> k = m >>= λ _. k

module _ {S A : Type 0} where
  abbrev pub pure : A → Io S A
  pure a s = (ok a, s)

  abbrev pub throw : Error → Io S A
  throw e s = (err e, s)

  abbrev pub gets : (S → A) → Io S A
  gets f s = (ok (f s), s)

  -- `if (!o) throw e`
  abbrev pub found : Option A → Error → Io S A
  found none e s = (err e, s)
  found (some a) e s = (ok a, s)

module _ {S : Type 0} where
  abbrev pub modify : (S → S) → Io S (Unit {0})
  modify f s = (ok tt, f s)

  -- `if (b) throw e`
  abbrev pub throw_if : Bool → Error → Io S (Unit {0})
  throw_if true e s = (err e, s)
  throw_if false e s = (ok tt, s)

-- A bind whose first half returned, and one whose first half threw.
pub >>=-ok :
    {S A B : Type 0} (m : Io S A) (f : A → Io S B) (s : S) (a : A) (s' : S)
    → m s ≡ (ok a, s')
    → (m >>= f) s ≡ f a s'
>>=-ok m f s a s' e = ap (continue f) e

pub >>=-err :
    {S A B : Type 0} (m : Io S A) (f : A → Io S B) (s : S) (e : Error) (s' : S)
    → m s ≡ (err e, s')
    → (m >>= f) s ≡ (err e, s')
>>=-err m f s e s' h = ap (continue f) h
