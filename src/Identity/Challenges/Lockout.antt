-- ===== src/Identity/Challenges/Lockout.antt =====
-- Guessing a code: how many wrong guesses a challenge stands.
use akabbo.Prelude.{
  ℕ, suc, ◌+◌, ◌≤◌, ltb, leb, ◌≡◌, refl, ◌∙◌, ap, ◌⊎◌, inl, inr, Bool, true, false, not, ◌||◌,
  String, some, is_some, List, [], ◌∷◌, arith, Bool-cases,
}
use akabbo.Prelude.Lists.{length}
use akabbo.Prelude.Result.{Error, err, bad_request, unauthorized}
use akabbo.Prelude.Io.{Io, >>=-err}
use akabbo.Identity.Otp.{Crypto, verify_otp}
use akabbo.Identity.Users.{Db, Challenge}
use akabbo.Identity.Sessions.{Jwt, Config, AuthSession}
use akabbo.Identity.Challenges.{
  Channel, by_phone, by_email, address, find_challenge, map_challenge, one_more_attempt, redeem,
  present, sign_in_by_phone, sign_in_by_email, verify_otp_session, verify_email_otp_session,
}
use akabbo.Identity.Challenges.Laws.{map_option, find_challenge-map_challenge, find_challenge_id}

-- A guess: the time at which it is made, and the code.
abbrev pub Guess : Type 0
Guess = ℕ × String

module _ {Token : Type 0} (jwt : Jwt Token) (crypto : Crypto) (cfg : Config) where
  -- A guess is a call of `verifyOtp` for a code by phone, and of `verifyEmailOtp` for one by email.
  unfoldable pub verify_code : Channel → ℕ → ℕ → ℕ → String → Io Db (AuthSession Token)
  unfolding verify_otp_session verify_email_otp_session
  verify_code by_phone now new_id challenge_id code =
      verify_otp_session jwt crypto cfg now new_id challenge_id code
  verify_code by_email now new_id challenge_id code =
      verify_email_otp_session jwt crypto cfg now new_id challenge_id code

module _ {Token : Type 0} (jwt : Jwt Token) (crypto : Crypto) (cfg : Config) (ch : Channel)
    (id : ℕ) where
  -- The tables after a series of guesses at one challenge.
  unfoldable pub guess_all : List Guess → Db → Db
  guess_all [] db = db
  guess_all ((t, code) ∷ gs) db = guess_all gs (verify_code jwt crypto cfg ch t 0 id code db).1

  -- Every guess is wrong, and none is made after `now`.
  abbrev pub AllWrong : String → ℕ → List Guess → Type 0
  AllWrong hash now [] = Unit {0}
  AllWrong hash now ((t, code) ∷ gs) =
      (verify_otp crypto code hash ≡ false) × (t ≤ now) × AllWrong hash now gs

  -- The challenge is refused at the time `now`, before any code is looked at.
  abbrev refused : ℕ → Challenge → Bool
  refused now c =
      not (is_some (present (address ch c)))
      || is_some c.consumed_at
      || ltb c.expires_at now
      || leb cfg.otp_max_attempts c.attempts

  redeem-refused :
      (now : ℕ) (code : String) (c : Challenge) (db : Db)
      → find_challenge id db.challenges ≡ some c
      → refused now c ≡ true
      → redeem ch crypto cfg now id code db ≡ (err bad_request, db)
  unfolding redeem
  redeem-refused now code c db there h = ground arith

  counted : Db → Db
  counted db = record db { challenges = map_challenge id one_more_attempt db.challenges }

  redeem_wrong :
      (now : ℕ) (code : String) (c : Challenge) (db : Db)
      → find_challenge id db.challenges ≡ some c
      → refused now c ≡ false
      → verify_otp crypto code c.code_hash ≡ false
      → redeem ch crypto cfg now id code db ≡ (err unauthorized, counted db)
  unfolding redeem counted
  redeem_wrong now code c db there h wrong =
      ground (arith, find_challenge_id id db.challenges c there)

  -- After `n` more wrong guesses the challenge is refused at the time `now`.
  abbrev Closing : ℕ → ℕ → String → Db → Type 0
  Closing n now hash db =
      (c : Challenge) × (find_challenge id db.challenges ≡ some c)
      × (c.code_hash ≡ hash)
      × ((cfg.otp_max_attempts ≤ c.attempts + n) ⊎ (refused now c ≡ true))

  thrown :
      (c : Channel) (t new_id : ℕ) (code : String) (e : Error) (db db' : Db)
      → redeem c crypto cfg t id code db ≡ (err e, db')
      → verify_code jwt crypto cfg c t new_id id code db ≡ (err e, db')
  unfolding verify_code verify_otp_session verify_email_otp_session
  thrown by_phone t new_id code e db db' h =
      >>=-err (redeem by_phone crypto cfg t id code) (sign_in_by_phone jwt crypto cfg t new_id) db e
        db' h
  thrown by_email t new_id code e db db' h =
      >>=-err (redeem by_email crypto cfg t id code) (sign_in_by_email jwt crypto cfg t new_id) db e
        db' h

  Closing-guess :
      (n now t : ℕ) (hash code : String) (db : Db)
      → t ≤ now
      → verify_otp crypto code hash ≡ false
      → Closing (suc n) now hash db
      → Closing n now hash (verify_code jwt crypto cfg ch t 0 id code db).1
  unfolding counted
  Closing-guess n now t hash code db le wrong (c, there, same, closing) =
      elim (Bool-cases (refused t c)) [
        | inl h ↦
            rw (thrown ch t 0 code bad_request db db (redeem-refused t code c db there h))
              (c, there, same, inr (ground arith))
        | inr h ↦
            rw
              (thrown ch t 0 code unauthorized db (counted db)
                (redeem_wrong t code c db there h (ap (verify_otp crypto code) same ∙ wrong)))
              (
                one_more_attempt c,
                find_challenge-map_challenge id one_more_attempt db.challenges (λ _. refl)
                    ∙ ap (map_option one_more_attempt) there,
                same,
                elim closing [ inl few ↦ inl (omega arith) | inr h ↦ inr (ground arith) ],
              )
      ]

  Closing-all :
      (now : ℕ) (hash : String) (gs : List Guess) (db : Db)
      → AllWrong hash now gs
      → Closing (length gs) now hash db
      → Closing 0 now hash (guess_all gs db)
  unfolding guess_all length
  Closing-all now hash [] db wrong closing = closing
  Closing-all now hash ((t, code) ∷ gs) db (w, le, wrong) closing =
      Closing-all now hash gs (verify_code jwt crypto cfg ch t 0 id code db).1 wrong
        (Closing-guess (length gs) now t hash code db le w closing)

  -- Of a challenge by phone as of one by email: after as many wrong guesses at it through its channel's
  -- own call as the configured maximum, each made at any time up to `now`, that call refuses every code
  -- at `now`, the right one too, and nothing changes.
  pub guess_all_locks :
      (now : ℕ) (c : Challenge) (gs : List Guess) (new_id : ℕ) (code : String) (db : Db)
      → find_challenge id db.challenges ≡ some c
      → AllWrong c.code_hash now gs
      → cfg.otp_max_attempts ≤ length gs
      → verify_code jwt crypto cfg ch now new_id id code (guess_all gs db)
        ≡ (err bad_request, guess_all gs db)
  guess_all_locks now c gs new_id code db there wrong many =
      let (d, there', _, closing) =
        Closing-all now c.code_hash gs db wrong (c, there, refl, inl (omega arith)) in
      thrown ch now new_id code bad_request (guess_all gs db) (guess_all gs db) (
        redeem-refused now code d (guess_all gs db) there'
          (elim closing [ inl all ↦ ground arith | inr h ↦ h ]))
