-- ===== src/Confirmation/Amount.antt =====
-- libs/ai/src/amount.ts, `formatAmount`: an amount as a person reads it.
use akabbo.Prelude.{
  ℕ, suc, ◌%◌, ◌==◌, ltb, leb, ◌≡◌, refl, Bool, true, false, ◌&&◌, ◌||◌, String, arith, ap, ◌∙◌,
  Bool-cases, inl, inr, if◌then◌else◌,
}
use akabbo.Prelude.Int.{pos}
use akabbo.Prelude.Result.{ok}
use akabbo.Ledger.Money.{
  is_digit, all_digits, matches_digits, money_to_string, money_to_string-matches, parse_money,
  string, parse_money-money_to_string,
}
use Prim.Native.Char.{Char, code}

-- `\w`
unfoldable pub is_word : Char → Bool
unfolding is_digit
is_word c =
    is_digit c
    || leb 65 (code c) && leb (code c) 90
    || leb 97 (code c) && leb (code c) 122
    || code c == 95

-- How many digits a text begins with.
unfoldable pub digit_run : String → ℕ
digit_run String.[] = 0
digit_run (String.◌∷◌ c s) = let more = digit_run s in if is_digit c then suc more else 0

-- `(?=(\d{3})+(?!\d))`: a run of digits follows whose length is a multiple of 3, and not 0.
unfoldable pub groups_follow : String → Bool
unfolding digit_run
groups_follow s = ltb 0 (digit_run s) && (digit_run s % 3 == 0)

-- `replace(/\B(?=(\d{3})+(?!\d))/g, ',')`: `\B` between two characters, the second of them a digit,
-- asks that the first is a word character, and it never holds before a digit that comes first.
unfoldable pub with_commas : Bool → String → String
unfolding groups_follow is_word
with_commas after_word String.[] = String.[]
with_commas after_word (String.◌∷◌ c s) =
    let rest = with_commas (is_word c) s in
    if after_word && groups_follow (String.◌∷◌ c s)
    then String.◌∷◌ "," (String.◌∷◌ c rest)
    else String.◌∷◌ c rest

-- `formatAmount`, of a text.
unfoldable pub format_amount : String → String
unfolding with_commas
format_amount String.[] = String.[]
format_amount (String.◌∷◌ c s) =
    if code c == 45 then String.◌∷◌ c (with_commas false s) else with_commas false (String.◌∷◌ c s)

-- The text without its commas.
unfoldable pub strip_commas : String → String
strip_commas String.[] = String.[]
strip_commas (String.◌∷◌ c s) =
    let rest = strip_commas s in if code c == 44 then rest else String.◌∷◌ c rest

strip_commas-with_commas :
    (after_word : Bool) (s : String) → strip_commas (with_commas after_word s) ≡ strip_commas s
unfolding strip_commas with_commas
strip_commas-with_commas after_word String.[] = refl
strip_commas-with_commas after_word (String.◌∷◌ c s) =
    elim (Bool-cases (after_word && groups_follow (String.◌∷◌ c s))) [
      | inl here ↦ rw here (ground (arith, strip_commas-with_commas (is_word c) s))
      | inr there ↦ rw there (ground (arith, strip_commas-with_commas (is_word c) s))
    ]

strip_commas-digits : (s : String) → all_digits s ≡ true → strip_commas s ≡ s
unfolding strip_commas all_digits is_digit
strip_commas-digits String.[] h = refl
strip_commas-digits (String.◌∷◌ c s) h = ground (arith, strip_commas-digits s)

strip_commas-format_amount :
    (s : String) → matches_digits s ≡ true → strip_commas (format_amount s) ≡ s
unfolding format_amount matches_digits is_digit
strip_commas-format_amount String.[] h = unfold strip_commas in refl
strip_commas-format_amount (String.◌∷◌ c s) h =
    let no_sign : (code c == 45) ≡ false = ground arith in
    rw no_sign (
      strip_commas-with_commas false (String.◌∷◌ c s)
      ∙ strip_commas-digits (String.◌∷◌ c s) (unfold all_digits in h))

-- An amount that is written out and grouped for a person to read is, without its commas, read back as
-- the same amount.
pub parse_money-format_amount :
    (n : ℕ)
    → parse_money (string (strip_commas (format_amount (money_to_string (pos n))))) ≡ ok (pos n)
parse_money-format_amount n =
    ap (λ s. parse_money (string s))
      (strip_commas-format_amount (money_to_string (pos n)) (money_to_string-matches n))
    ∙ parse_money-money_to_string n
