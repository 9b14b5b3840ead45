-- ===== src/Ledger/Money.antt =====
-- libs/ledger/src/money.ts: amounts as decimal texts, and the parse that guards the edges.
use akabbo.Prelude.{
  ℕ, zero, suc, ◌+◌, ◌-◌, ◌*◌, ◌/◌, ◌%◌, ◌<◌, ◌≡◌, refl, Bool, true, false, ◌&&◌, String, arith,
  ltb, leb, if◌then◌else◌, ap, ◌∙◌, Bool-cases, inl, inr,
}
use akabbo.Prelude.Int.{ℤ, pos, negsuc, ◌≤ℤ◌, ltb_ℤ}
use akabbo.Prelude.Result.{Result, ok, err, malformed_amount}
use Prim.Native.Char.{Char, code}

-- The character of one decimal digit.
digit_char : ℕ → Char
digit_char zero = "0"
digit_char (suc zero) = "1"
digit_char (suc (suc zero)) = "2"
digit_char (suc (suc (suc zero))) = "3"
digit_char (suc (suc (suc (suc zero)))) = "4"
digit_char (suc (suc (suc (suc (suc zero))))) = "5"
digit_char (suc (suc (suc (suc (suc (suc zero)))))) = "6"
digit_char (suc (suc (suc (suc (suc (suc (suc zero))))))) = "7"
digit_char (suc (suc (suc (suc (suc (suc (suc (suc zero)))))))) = "8"
digit_char _ = "9"

-- The decimal digits of `n` before `rest`; fuel `n + 1` is enough, since each round divides by 10.
digits_onto : ℕ → ℕ → String → String
digits_onto zero n rest = rest
digits_onto (suc f) n rest =
    let shorter = digits_onto f (n / 10) (String.◌∷◌ (digit_char (n % 10)) rest) in
    if ltb n 10 then String.◌∷◌ (digit_char n) rest else shorter

-- `moneyToString`: `bigint.toString()`
unfoldable pub money_to_string : ℤ → String
unfolding digits_onto digit_char
money_to_string (pos n) = digits_onto (suc n) n String.[]
money_to_string (negsuc n) = String.◌∷◌ "-" (digits_onto (suc (suc n)) (suc n) String.[])

unfoldable pub is_digit : Char → Bool
is_digit c = leb 48 (code c) && leb (code c) 57

-- Every character is a digit.
unfoldable pub all_digits : String → Bool
unfolding is_digit
all_digits String.[] = true
all_digits (String.◌∷◌ c s) = is_digit c && all_digits s

-- `/^\d+$/.test(s)`
unfoldable pub matches_digits : String → Bool
unfolding all_digits
matches_digits String.[] = false
matches_digits (String.◌∷◌ c s) = is_digit c && all_digits s

-- `BigInt(s)` on a text of digits.
big_int : ℕ → String → ℕ
big_int acc String.[] = acc
big_int acc (String.◌∷◌ c s) = big_int (acc * 10 + (code c - 48)) s

-- What `parseMoney` is handed, of type `unknown`.
pub data Input : Type 0 where
  bigint : ℤ → Input
  integer : ℤ → Input
  fractional : Input
  string : String → Input
  other : Input

-- `assertNonNegative`
assert_non_negative : ℤ → Result ℤ
assert_non_negative v = if ltb_ℤ v (pos 0) then err malformed_amount else ok v

-- `parseMoney`
unfoldable pub parse_money : Input → Result ℤ
unfolding assert_non_negative matches_digits big_int
parse_money (bigint v) = assert_non_negative v
parse_money (integer v) = assert_non_negative v
parse_money fractional = err malformed_amount
parse_money (string s) =
    if matches_digits s then assert_non_negative (pos (big_int 0 s)) else err malformed_amount
parse_money other = err malformed_amount

-- Whatever the input, an accepted amount is not negative.
pub parse_money_nonneg : (i : Input) (v : ℤ) → parse_money i ≡ ok v → pos 0 ≤ℤ v
unfolding parse_money
parse_money_nonneg i v h = ground arith

digit_char_code : (d : ℕ) → d < 10 → code (digit_char d) ≡ 48 + d
unfolding digit_char
digit_char_code zero h = refl
digit_char_code (suc zero) h = refl
digit_char_code (suc (suc zero)) h = refl
digit_char_code (suc (suc (suc zero))) h = refl
digit_char_code (suc (suc (suc (suc zero)))) h = refl
digit_char_code (suc (suc (suc (suc (suc zero))))) h = refl
digit_char_code (suc (suc (suc (suc (suc (suc zero)))))) h = refl
digit_char_code (suc (suc (suc (suc (suc (suc (suc zero))))))) h = refl
digit_char_code (suc (suc (suc (suc (suc (suc (suc (suc zero)))))))) h = refl
digit_char_code (suc (suc (suc (suc (suc (suc (suc (suc (suc zero))))))))) h = refl
digit_char_code (suc (suc (suc (suc (suc (suc (suc (suc (suc (suc d)))))))))) h =
    absurd (omega arith)

digits_onto-suc :
    (f n : ℕ) (rest : String)
    → digits_onto (suc f) n rest ≡ (
        if ltb n 10
        then String.◌∷◌ (digit_char n) rest
        else digits_onto f (n / 10) (String.◌∷◌ (digit_char (n % 10)) rest))
unfolding digits_onto
digits_onto-suc f n rest = refl

big_int-digit :
    (acc d : ℕ) (s : String)
    → d < 10
    → big_int acc (String.◌∷◌ (digit_char d) s) ≡ big_int (acc * 10 + d) s
unfolding big_int
big_int-digit acc d s h =
    rw (digit_char_code d h) (ap (λ (k : ℕ). big_int (acc * 10 + k) s) (omega arith))

-- Reading the digits that were written for `n` gives `n`, whatever follows.
big_int-digits_onto :
    (f n : ℕ) (rest : String) → n < f → big_int 0 (digits_onto f n rest) ≡ big_int n rest
big_int-digits_onto zero n rest h = absurd (omega arith)
big_int-digits_onto (suc f) n rest h = rw digits_onto-suc (elim (Bool-cases (ltb n 10)) [
  | inl small ↦
      rw small
        (big_int-digit 0 n rest (ground arith) ∙ ap (λ (k : ℕ). big_int k rest) (omega arith))
  | inr big ↦ rw big (
      big_int-digits_onto f (n / 10) (String.◌∷◌ (digit_char (n % 10)) rest) (ground arith)
      ∙ big_int-digit (n / 10) (n % 10) rest (omega arith)
      ∙ ap (λ (k : ℕ). big_int k rest) (omega arith))
])

digit_char-is_digit : (d : ℕ) → d < 10 → is_digit (digit_char d) ≡ true
unfolding is_digit
digit_char-is_digit d h = ground (arith, digit_char_code d h)

digits_onto-matches :
    (f n : ℕ) (rest : String)
    → n < f
    → all_digits rest ≡ true
    → matches_digits (digits_onto f n rest) ≡ true
digits_onto-matches zero n rest h r = absurd (omega arith)
digits_onto-matches (suc f) n rest h r = rw digits_onto-suc (elim (Bool-cases (ltb n 10)) [
  | inl small ↦
      rw small (unfold matches_digits in ground (arith, digit_char-is_digit n (ground arith)))
  | inr big ↦ rw big (
      digits_onto-matches f (n / 10) (String.◌∷◌ (digit_char (n % 10)) rest) (ground arith)
        (unfold all_digits in ground (arith, digit_char-is_digit (n % 10) (omega arith))))
])

money_to_string-pos : (n : ℕ) → money_to_string (pos n) ≡ digits_onto (suc n) n String.[]
unfolding money_to_string
money_to_string-pos n = refl

parse_money-string :
    (s : String) → matches_digits s ≡ true → parse_money (string s) ≡ ok (pos (big_int 0 s))
unfolding parse_money
parse_money-string s h = ground arith

pub money_to_string-matches : (n : ℕ) → matches_digits (money_to_string (pos n)) ≡ true
money_to_string-matches n =
    rw money_to_string-pos
      (digits_onto-matches (suc n) n String.[] (omega arith) (unfold all_digits in refl))

-- An amount that is not negative and is written out is read back unchanged.
pub parse_money-money_to_string :
    (n : ℕ) → parse_money (string (money_to_string (pos n))) ≡ ok (pos n)
parse_money-money_to_string n = rw money_to_string-pos (
    parse_money-string (digits_onto (suc n) n String.[])
      (digits_onto-matches (suc n) n String.[] (omega arith) (unfold all_digits in refl))
    ∙ ap (λ (k : ℕ). ok (pos k)) (big_int-digits_onto (suc n) n String.[] (omega arith) ∙ nil n))
  where
    nil : (k : ℕ) → big_int k String.[] ≡ k
    nil k = unfold big_int in refl

-- Different amounts are written differently.
pub money_to_string-injective :
    (m n : ℕ) → money_to_string (pos m) ≡ money_to_string (pos n) → m ≡ n
money_to_string-injective m n e = cc (
  parse_money-money_to_string m,
  parse_money-money_to_string n,
  ap (λ s. parse_money (string s)) e,
)
