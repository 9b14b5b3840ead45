-- ===== src/Identity/Tests.antt =====
-- Runs of the sign-in on small tables.
use akabbo.Prelude.{
  ℕ, ◌+◌, ◌*◌, ltb, str_eq, ◌≡◌, refl, Bool, true, false, String, Option, none, some, List, [], ◌∷◌,
  arith, eq_iff, if◌then◌else◌,
}
use akabbo.Prelude.Result.{ok, err, bad_request, unauthorized}
use akabbo.Identity.Otp.{Crypto, verify_otp}
use akabbo.Identity.Users.{Db, User, Challenge, find_phone}
use akabbo.Identity.Sessions.{
  JwtPayload, Jwt, Config, AuthSession, issue_session, refresh_token, verify_access_token,
}
use akabbo.Identity.Sessions.Laws.{Verifies, issue_session-tokens}
use akabbo.Identity.Challenges.{
  by_phone, by_email, Draws, start, verify_otp_session, verify_email_otp_session,
}
use akabbo.Identity.Challenges.Laws.{PrimaryKey, Verified, Redeemable, verify_otp_signs_in}
use akabbo.Identity.Challenges.Lockout.{Guess, verify_code, guess_all, guess_all_locks}
use akabbo.Identity.Challenges.Cooldown.{start_cooldown}

-- A key derivation that is only the length of the code, and tokens that are what was signed.
abbrev count : String → ℕ
count String.[] = 0
count (String.◌∷◌ c s) = 1 + count s

abbrev crypto : Crypto
crypto = record {
  to_hex = λ bs. "ab";
  from_hex = λ s. 7 ∷ [];
  scrypt = λ code salt n. count code ∷ [];
}

abbrev Token : Type 0
Token = (JwtPayload × String) × ℕ

abbrev check_token : Token → String → ℕ → Option JwtPayload
check_token ((p, secret), until) key now =
    if ltb now until then (if str_eq secret key then some p else none) else none

abbrev jwt : Jwt Token
jwt = record { sign = λ p secret ttl now. ((p, secret), now + ttl * 1000); verify = check_token }

abbrev cfg : Config
cfg = record {
  otp_ttl_seconds = 300;
  otp_max_attempts = 2;
  otp_cooldown_seconds = 30;
  auth_expose_otp = false;
  jwt_secret = "k";
  jwt_ttl_seconds = 60;
  jwt_refresh_ttl_seconds = 600;
}

abbrev challenge : Challenge
challenge = record {
  id = 4;
  phone = some "0700";
  email = none;
  code_hash = "ab:cd";
  expires_at = 301000;
  consumed_at = none;
  attempts = 0;
  created_at = 1000;
}

abbrev user : User
user = record {
  id = 7;
  phone = some "0700";
  phone_verified = false;
  email = none;
  email_verified = false;
  display_name = none;
}

abbrev db0 : Db
db0 = record { users = user ∷ []; challenges = challenge ∷ [] }

ids_are_keys : PrimaryKey db0
unfolding akabbo.Identity.Users.find_user find_phone
ids_are_keys p u h = ground arith

right_code : Redeemable crypto cfg by_phone 2000 4 "1234567" "0700" challenge db0
unfolding akabbo.Identity.Challenges.find_challenge verify_otp akabbo.Prelude.Lists.length
right_code = (refl, refl, refl, refl, refl, refl, refl)

verify_otp_signs_in_example :
    (s : AuthSession Token) × (db' : Db) × (verify_otp_session jwt crypto cfg 2000 9 4 "1234567" db0
      ≡ (ok s, db'))
    × Verified "0700" s.user_id db'
    × ((later other_id : ℕ) (other : String)
        → (verify_otp_session jwt crypto cfg later other_id 4 other db' ≡ (err bad_request, db'))
          × (verify_email_otp_session jwt crypto cfg later other_id 4 other db'
              ≡ (err bad_request, db')))
verify_otp_signs_in_example =
    verify_otp_signs_in jwt crypto cfg 2000 9 4 "1234567" "0700" challenge db0 ids_are_keys
      right_code

abbrev guesses : List Guess
guesses = (2000, "1") ∷ (3000, "12") ∷ []

there : akabbo.Identity.Challenges.find_challenge 4 db0.challenges ≡ some challenge
unfolding akabbo.Identity.Challenges.find_challenge
there = refl

known : akabbo.Identity.Users.find_user 7 db0.users ≡ some user
unfolding akabbo.Identity.Users.find_user
known = refl

wrong : akabbo.Identity.Challenges.Lockout.AllWrong jwt crypto cfg by_email 4 "ab:cd" 4000 guesses
unfolding verify_otp akabbo.Prelude.Lists.length
wrong = (refl, omega arith, (refl, omega arith, tt))

abbrev by_mail : Challenge
by_mail = record challenge { phone = none; email = some "b@x.ug" }

abbrev mailed : Db
mailed = record db0 { challenges = by_mail ∷ [] }

mail_there : akabbo.Identity.Challenges.find_challenge 4 mailed.challenges ≡ some by_mail
unfolding akabbo.Identity.Challenges.find_challenge
mail_there = refl

guess_all_locks_example :
    verify_code jwt crypto cfg by_email 4000 9 4 "1234567"
      (guess_all jwt crypto cfg by_email 4 guesses mailed)
    ≡ (err bad_request, guess_all jwt crypto cfg by_email 4 guesses mailed)
unfolding akabbo.Prelude.Lists.length
guess_all_locks_example =
    guess_all_locks jwt crypto cfg by_email 4 4000 by_mail guesses 9 "1234567" mailed mail_there
      wrong (omega arith)

draws : Draws
draws = record { id = 5; digits = λ i. i; salt = [] }

start_cooldown_example : start by_phone crypto cfg 2000 draws "0700" db0 ≡ (err bad_request, db0)
start_cooldown_example =
    start_cooldown by_phone crypto cfg 2000 4 draws "0700" challenge db0 there refl refl
      (omega arith) (omega arith)

jwt-Verifies : Verifies jwt
jwt-Verifies p secret ttl now later h = ground (arith, (eq_iff secret secret).1 refl)

issue_session-tokens_example :
    (verify_access_token jwt cfg 6000 (issue_session jwt cfg 5000 7 true false).access_token
      ≡ some (record { user_id = 7; phone_verified = true }))
    × (refresh_token jwt cfg 6000 (issue_session jwt cfg 5000 7 true false).access_token db0.users
        ≡ err unauthorized)
    × (verify_access_token jwt cfg 6000 (issue_session jwt cfg 5000 7 true false).refresh_token
        ≡ none)
    × (refresh_token jwt cfg 6000 (issue_session jwt cfg 5000 7 true false).refresh_token db0.users
        ≡ ok (issue_session jwt cfg 6000 7 false false))
issue_session-tokens_example =
    issue_session-tokens jwt cfg 5000 6000 7 true false user db0.users jwt-Verifies (omega arith)
      (omega arith) known
