-- ===== src/Identity/Challenges/Laws.antt =====
-- What redeeming a code does.
use akabbo.Prelude.{
  ℕ, ==_refl, ltb, leb, str_eq, ◌≡◌, refl, ◌∙◌, ap, inl, inr, true, false, String, Option, none,
  some, List, [], ◌∷◌, arith, Bool-cases, Option-cases, eq_iff,
}
use akabbo.Prelude.Result.{ok, err, bad_request}
use akabbo.Prelude.Io.{>>=-ok, >>=-err}
use akabbo.Identity.Otp.{Crypto, verify_otp}
use akabbo.Identity.Users.{
  Db, User, Challenge, holds, find_user, find_phone, map_user, find_or_create_by_phone,
  mark_phone_verified, phone_user, verify_phone,
}
use akabbo.Identity.Sessions.{Jwt, Config, AuthSession, issue_session}
use akabbo.Identity.Challenges.{
  Channel, by_phone, by_email, address, find_challenge, map_challenge, consumed, redeem,
  sign_in_by_phone, sign_in_by_email, verify_otp_session, verify_email_otp_session,
}

abbrev pub map_option {ℓ} : {A : Type ℓ} → (A → A) → Option A → Option A
map_option g none = none
map_option g (some a) = some (g a)

pub find_challenge-map_challenge :
    (id : ℕ) (g : Challenge → Challenge) (cs : List Challenge)
    → ((c : Challenge) → (g c).id ≡ c.id)
    → find_challenge id (map_challenge id g cs) ≡ map_option g (find_challenge id cs)
unfolding find_challenge map_challenge
find_challenge-map_challenge id g [] k = refl
find_challenge-map_challenge id g (c ∷ cs) k =
    ground (arith, k c, find_challenge-map_challenge id g cs k)

pub find_challenge_id :
    (id : ℕ) (cs : List Challenge) (c : Challenge) → find_challenge id cs ≡ some c → c.id ≡ id
unfolding find_challenge
find_challenge_id id [] c h = ground arith
find_challenge_id id (x ∷ cs) c h = ground (arith, find_challenge_id id cs c)

find_user-map_user :
    (id : ℕ) (g : User → User) (us : List User)
    → ((u : User) → (g u).id ≡ u.id)
    → find_user id (map_user id g us) ≡ map_option g (find_user id us)
unfolding find_user map_user
find_user-map_user id g [] k = refl
find_user-map_user id g (u ∷ us) k = ground (arith, k u, find_user-map_user id g us k)

find_phone-holds :
    (p : String) (us : List User) (u : User) → find_phone p us ≡ some u → holds u.phone p ≡ true
unfolding find_phone
find_phone-holds p [] u h = ground arith
find_phone-holds p (x ∷ us) u h = ground (arith, find_phone-holds p us u)

module _ (crypto : Crypto) (cfg : Config) where
  -- A challenge that is consumed is refused, whatever the channel, the time and the code.
  pub redeem_consumed :
      (ch : Channel) (now id t : ℕ) (code : String) (db : Db) (c : Challenge)
      → find_challenge id db.challenges ≡ some c
      → c.consumed_at ≡ some t
      → redeem ch crypto cfg now id code db ≡ (err bad_request, db)
  unfolding redeem
  redeem_consumed ch now id t code db c there used = ground arith

  -- A challenge for the channel that can still be used, and the code that was sent for it.
  abbrev pub Redeemable : Channel → ℕ → ℕ → String → String → Challenge → Db → Type 0
  Redeemable ch now id code to c db =
      (find_challenge id db.challenges ≡ some c)
      × (address ch c ≡ some to)
      × (str_eq to "" ≡ false)
      × (c.consumed_at ≡ none)
      × (ltb c.expires_at now ≡ false)
      × (leb cfg.otp_max_attempts c.attempts ≡ false)
      × (verify_otp crypto code c.code_hash ≡ true)

  abbrev pub redeemed : ℕ → ℕ → Db → Db
  redeemed now id db = record db { challenges = map_challenge id (consumed now) db.challenges }

  pub redeem_right :
      (ch : Channel) (now id : ℕ) (code to : String) (c : Challenge) (db : Db)
      → Redeemable ch now id code to c db
      → redeem ch crypto cfg now id code db ≡ (ok to, redeemed now id db)
  unfolding redeem
  redeem_right ch now id code to c db (there, for, nonempty, unused, alive, fewer, right) =
      ground (arith, find_challenge_id id db.challenges c there)

-- The user that a phone finds is the user that its id finds: ids are a primary key.
abbrev pub PrimaryKey : Db → Type 0
PrimaryKey db =
    (p : String) (u : User) → find_phone p db.users ≡ some u → find_user u.id db.users ≡ some u

-- The account of a phone after `findOrCreateByPhone` and `markPhoneVerified`.
abbrev pub Verified : String → ℕ → Db → Type 0
Verified phone id db =
    (u : User) × (find_user id db.users ≡ some u)
    × (holds u.phone phone ≡ true)
    × (u.phone_verified ≡ true)

module _ {Token : Type 0} (jwt : Jwt Token) (crypto : Crypto) (cfg : Config) where
  -- The account is there afterwards, and verified; the challenges are left alone.
  establish :
      (now new_id : ℕ) (phone : String) (db : Db)
      → PrimaryKey db
      → (s : AuthSession Token) × (db' : Db) × (sign_in_by_phone jwt crypto cfg now new_id phone db
          ≡ (ok s, db'))
        × (db'.challenges ≡ db.challenges)
        × Verified phone s.user_id db'
  unfolding sign_in_by_phone find_or_create_by_phone mark_phone_verified find_user map_user
      issue_session
  establish now new_id phone db key = elim (Option-cases (find_phone phone db.users)) [
    | inl fresh ↦ (
      issue_session jwt cfg now new_id true true,
      record db { users = map_user new_id verify_phone (phone_user new_id phone ∷ db.users) },
      ground (arith, ==_refl new_id),
      refl,
      (
        verify_phone (phone_user new_id phone),
        ground (arith, ==_refl new_id),
        (eq_iff phone phone).1 refl,
        refl,
      ),
    )
    | inr (u, known) ↦ elim (Bool-cases u.phone_verified) [
      | inl verified ↦ (
        issue_session jwt cfg now u.id true false,
        db,
        ground arith,
        refl,
        (u, key phone u known, find_phone-holds phone db.users u known, verified),
      )
      | inr unverified ↦ (
        issue_session jwt cfg now u.id true false,
        record db { users = map_user u.id verify_phone db.users },
        ground (arith, key phone u known),
        refl,
        (
          verify_phone u,
          find_user-map_user u.id verify_phone db.users (λ _. refl)
              ∙ ap (map_option verify_phone) (key phone u known),
          find_phone-holds phone db.users u known,
          refl,
        ),
      )
    ]
  ]

  consumed_later :
      (ch : Channel) (now later id : ℕ) (code code' to : String) (c : Challenge) (db db' : Db)
      → Redeemable crypto cfg ch now id code to c db
      → db'.challenges ≡ (redeemed crypto cfg now id db).challenges
      → (other : Channel) → redeem other crypto cfg later id code' db' ≡ (err bad_request, db')
  consumed_later ch now later id code code' to c db db' (there, _, _, _, _, _, _) same other =
      redeem_consumed crypto cfg other later id now code' db' (consumed now c)
        (ap (find_challenge id) same
          ∙ find_challenge-map_challenge id (consumed now) db.challenges (λ _. refl)
          ∙ ap (map_option (consumed now)) there)
        refl

  -- The right code for a phone's challenge that is unused, unexpired and below its attempts signs in
  -- to an account with that phone, which is marked as verified; and from then on that challenge is
  -- refused on either channel, at any time and with any code, and nothing changes.
  pub verify_otp_signs_in :
      (now new_id id : ℕ) (code phone : String) (c : Challenge) (db : Db)
      → PrimaryKey db
      → Redeemable crypto cfg by_phone now id code phone c db
      → (s : AuthSession Token) × (db' : Db) × (verify_otp_session jwt crypto cfg now new_id id code
            db
          ≡ (ok s, db'))
        × Verified phone s.user_id db'
        × ((later other_id : ℕ) (other : String)
            → (verify_otp_session jwt crypto cfg later other_id id other db'
                ≡ (err bad_request, db'))
              × (verify_email_otp_session jwt crypto cfg later other_id id other db'
                  ≡ (err bad_request, db')))
  unfolding verify_otp_session verify_email_otp_session
  verify_otp_signs_in now new_id id code phone c db key ready =
      let (s, db', runs, same, there) =
        establish now new_id phone (redeemed crypto cfg now id db) key in
      (
        s,
        db',
        >>=-ok (redeem by_phone crypto cfg now id code) (sign_in_by_phone jwt crypto cfg now new_id)
              db phone (redeemed crypto cfg now id db)
              (redeem_right crypto cfg by_phone now id code phone c db ready)
            ∙ runs,
        there,
        λ later other_id other. (
          >>=-err (redeem by_phone crypto cfg later id other)
              (sign_in_by_phone jwt crypto cfg later other_id) db' bad_request db'
              (consumed_later by_phone now later id code other phone c db db' ready same by_phone),
          >>=-err (redeem by_email crypto cfg later id other)
              (sign_in_by_email jwt crypto cfg later other_id) db' bad_request db'
              (consumed_later by_phone now later id code other phone c db db' ready same by_email),
        ),
      )
