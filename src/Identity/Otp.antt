-- ===== src/Identity/Otp.antt =====
-- libs/identity/src/otp.util.ts. The key derivation and the hexadecimal of `node:crypto` and `Buffer`
-- are parameters, and so are the random digits and the salt.
use akabbo.Prelude.{
  ℕ, zero, suc, ◌==◌, Bool, true, false, ◌&&◌, String, List, [], ◌∷◌, if◌then◌else◌,
}
use akabbo.Prelude.Int.{pos}
use akabbo.Prelude.Lists.{length}
use akabbo.Ledger.Money.{money_to_string}
use Prim.Native.Char.{Char, code}
use Prim.Native.String.{◌++◌ as append}

abbrev pub Bytes : Type 0
Bytes = List ℕ

-- What the module takes from `node:crypto`.
pub record Crypto : Type 0 where
  pub to_hex : Bytes → String
  pub from_hex : String → Bytes
  pub scrypt : String → Bytes → ℕ → Bytes

-- `generateOtp`: each draw is a digit.
unfoldable pub generate_otp : ℕ → (ℕ → ℕ) → String
unfolding money_to_string
generate_otp zero draw = ""
generate_otp (suc n) draw =
    append (money_to_string (pos (draw 0))) (generate_otp n (λ i. draw (suc i)))

-- `hashOtp`
unfoldable pub hash_otp : Crypto → Bytes → String → String
hash_otp crypto salt code =
    append (crypto.to_hex salt) (append ":" (crypto.to_hex (crypto.scrypt code salt 32)))

abbrev is_colon : Char → Bool
is_colon c = code c == 58

-- The parts of `split(':')`: what stands before the first colon, and what after it.
unfoldable pub before_colon : String → String
before_colon String.[] = String.[]
before_colon (String.◌∷◌ c s) =
    let rest = before_colon s in if is_colon c then String.[] else String.◌∷◌ c rest

unfoldable pub after_colon : String → String
after_colon String.[] = String.[]
after_colon (String.◌∷◌ c s) = let rest = after_colon s in if is_colon c then s else rest

abbrev is_empty : String → Bool
is_empty String.[] = true
is_empty (String.◌∷◌ _ _) = false

-- `timingSafeEqual`
unfoldable pub bytes_eq : Bytes → Bytes → Bool
bytes_eq [] [] = true
bytes_eq (a ∷ as') (b ∷ bs) = (a == b) && bytes_eq as' bs
bytes_eq _ _ = false

-- `verifyOtp`
unfoldable pub verify_otp : Crypto → String → String → Bool
unfolding before_colon after_colon bytes_eq
verify_otp crypto code stored =
    let salt_hex = before_colon stored in
    let derived_hex = before_colon (after_colon stored) in
    if is_empty salt_hex
    then false
    else if is_empty derived_hex
    then false
    else (let expected = crypto.from_hex derived_hex in
        let actual = crypto.scrypt code (crypto.from_hex salt_hex) (length expected) in
        (length actual == length expected) && bytes_eq actual expected)
