-- ===== src/Identity/Challenges.antt =====
-- libs/identity/src/local-auth.provider.ts: one-time codes by phone and by email. Nothing here runs in
-- a transaction. The dispatch of a code by SMS or email is not awaited, and its failure is only logged.
pub mod Laws
pub mod Lockout
pub mod Cooldown
use akabbo.Prelude.{
  ℕ, ◌+◌, ◌*◌, ◌==◌, ltb, leb, true, false, not, ◌&&◌, String, Option, none, some, is_some, List,
  [], ◌∷◌, if◌then◌else◌,
}
use akabbo.Prelude.Result.{ok, bad_request, unauthorized}
use akabbo.Prelude.Io.{Io, pure, gets, found, modify, throw_if, ◌>>=◌, ◌>>◌}
use akabbo.Identity.Otp.{Crypto, Bytes, generate_otp, hash_otp, verify_otp}
use akabbo.Identity.Users.{
  Db, Challenge, holds, find_or_create_by_phone, find_or_create_by_email, mark_phone_verified,
  mark_email_verified,
}
use akabbo.Identity.Sessions.{Jwt, Config, AuthSession, issue_session}

-- `prisma.authOtpChallenge.findUnique({ where: { id } })`
unfoldable pub find_challenge : ℕ → List Challenge → Option Challenge
find_challenge id [] = none
find_challenge id (c ∷ cs) = if c.id == id then some c else find_challenge id cs

unfoldable pub map_challenge : ℕ → (Challenge → Challenge) → List Challenge → List Challenge
map_challenge id g [] = []
map_challenge id g (c ∷ cs) = (if c.id == id then g c else c) ∷ map_challenge id g cs

-- The two channels: the column that names the receiver.
pub data Channel : Type 0 where
  by_phone by_email : Channel

abbrev pub address : Channel → Challenge → Option String
address by_phone c = c.phone
address by_email c = c.email

-- `findFirst({ where: { ...identifier, consumedAt: null }, orderBy: { createdAt: 'desc' } })`: when
-- the latest such challenge was created.
unfoldable pub latest : Channel → String → List Challenge → Option ℕ
latest ch to [] = none
latest ch to (c ∷ cs) =
    let rest = latest ch to cs in
    if holds (address ch c) to && not (is_some c.consumed_at)
    then (elim rest [
      | none ↦ some c.created_at
      | some t ↦ some (if ltb c.created_at t then t else c.created_at)
    ])
    else rest

-- `assertCooldownElapsed`; a clock that runs backwards gives a negative age, which is too young.
unfoldable pub assert_cooldown_elapsed : Config → ℕ → Channel → String → Io Db (Unit {0})
unfolding latest
assert_cooldown_elapsed cfg now ch to = if cfg.otp_cooldown_seconds == 0 then pure tt else do
  last ← gets (λ db. latest ch to db.challenges)
  throw_if (elim last [ none ↦ false | some t ↦ ltb now (t + cfg.otp_cooldown_seconds * 1000) ])
      bad_request

-- `StartOtpResult`
pub record StartOtpResult : Type 0 where
  pub challenge_id : ℕ
  pub expires_in_seconds : ℕ
  pub dev_code : Option String

-- What a call draws: the id of a row, the digits of the code, the salt.
pub record Draws : Type 0 where
  pub id : ℕ
  pub digits : ℕ → ℕ
  pub salt : Bytes

abbrev pub new_challenge : Crypto → Config → ℕ → Draws → Channel → String → Challenge
new_challenge crypto cfg now d ch to = record {
  id = d.id;
  phone = elim ch [ by_phone ↦ some to | by_email ↦ none ];
  email = elim ch [ by_phone ↦ none | by_email ↦ some to ];
  code_hash = hash_otp crypto d.salt (generate_otp 6 d.digits);
  expires_at = now + cfg.otp_ttl_seconds * 1000;
  consumed_at = none;
  attempts = 0;
  created_at = now;
}

-- `startOtp` and `startEmailOtp`, which are the same but for the column.
unfoldable pub start : Channel → Crypto → Config → ℕ → Draws → String → Io Db StartOtpResult
unfolding assert_cooldown_elapsed
start ch crypto cfg now d to = do
  assert_cooldown_elapsed cfg now ch to
  modify (λ db. record db { challenges = new_challenge crypto cfg now d ch to ∷ db.challenges })
  pure (record {
    challenge_id = d.id;
    expires_in_seconds = cfg.otp_ttl_seconds;
    dev_code = if cfg.auth_expose_otp then some (generate_otp 6 d.digits) else none;
  })

abbrev pub start_otp : Crypto → Config → ℕ → Draws → String → Io Db StartOtpResult
start_otp = start by_phone

abbrev pub start_email_otp : Crypto → Config → ℕ → Draws → String → Io Db StartOtpResult
start_email_otp = start by_email

abbrev pub one_more_attempt : Challenge → Challenge
one_more_attempt c = record c { attempts = c.attempts + 1 }

abbrev pub consumed : ℕ → Challenge → Challenge
consumed now c = record c { consumed_at = some now }

-- The column is there and not the empty text.
abbrev pub present : Option String → Option String
present none = none
present (some s) = if akabbo.Prelude.str_eq s "" then none else some s

-- The first half of `verifyOtp` and of `verifyEmailOtp`: the challenge is checked, a wrong code is
-- counted, the right one consumes the challenge.
unfoldable pub redeem : Channel → Crypto → Config → ℕ → ℕ → String → Io Db String
unfolding find_challenge map_challenge
redeem ch crypto cfg now id code = do
  row ← gets (λ db. find_challenge id db.challenges)
  challenge ← found row bad_request
  to ← found (present (address ch challenge)) bad_request
  throw_if (is_some challenge.consumed_at) bad_request
  throw_if (ltb challenge.expires_at now) bad_request
  throw_if (leb cfg.otp_max_attempts challenge.attempts) bad_request
  let right = verify_otp crypto code challenge.code_hash
  modify (λ db. record db {
    challenges =
        map_challenge challenge.id (if right then consumed now else one_more_attempt) db.challenges;
  })
  throw_if (not right) unauthorized
  pure to

module _ {Token : Type 0} (jwt : Jwt Token) (crypto : Crypto) (cfg : Config) where
  -- The second half of `verifyOtp`: the user of the phone, `new_id` if there is none yet.
  unfoldable pub sign_in_by_phone : ℕ → ℕ → String → Io Db (AuthSession Token)
  unfolding find_or_create_by_phone mark_phone_verified
  sign_in_by_phone now new_id phone = do
    (user, is_new) ← (λ db.
        let (found_user, db') = find_or_create_by_phone new_id phone db in (ok found_user, db'))
    if user.phone_verified then pure tt else mark_phone_verified user.id
    pure (issue_session jwt cfg now user.id true is_new)

  -- The second half of `verifyEmailOtp`.
  unfoldable pub sign_in_by_email : ℕ → ℕ → String → Io Db (AuthSession Token)
  unfolding find_or_create_by_email mark_email_verified
  sign_in_by_email now new_id email = do
    (user, is_new) ← (λ db.
        let (found_user, db') = find_or_create_by_email new_id email db in (ok found_user, db'))
    if user.email_verified then pure tt else mark_email_verified user.id
    pure (issue_session jwt cfg now user.id user.phone_verified is_new)

  -- `verifyOtp`
  unfoldable pub verify_otp_session : ℕ → ℕ → ℕ → String → Io Db (AuthSession Token)
  unfolding redeem sign_in_by_phone
  verify_otp_session now new_id id code = do
    phone ← redeem by_phone crypto cfg now id code
    sign_in_by_phone now new_id phone

  -- `verifyEmailOtp`
  unfoldable pub verify_email_otp_session : ℕ → ℕ → ℕ → String → Io Db (AuthSession Token)
  unfolding redeem sign_in_by_email
  verify_email_otp_session now new_id id code = do
    email ← redeem by_email crypto cfg now id code
    sign_in_by_email now new_id email
