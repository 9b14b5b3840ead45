-- ===== src/Identity/Sessions/Laws.antt =====
-- What the two tokens of a session are good for.
use akabbo.Prelude.{ℕ, ◌+◌, ◌*◌, ◌<◌, ◌≡◌, refl, Bool, false, String, none, some, List}
use akabbo.Prelude.Result.{ok, err, unauthorized}
use akabbo.Identity.Users.{User, find_user}
use akabbo.Identity.Sessions.{
  JwtPayload, Jwt, Config, issue_session, refresh_token, verify_access_token,
}

-- What `jsonwebtoken` documents: a token verifies, under the secret that signed it, to what was
-- signed, as long as its lifetime lasts.
abbrev pub Verifies : {Token : Type 0} → Jwt Token → Type 0
Verifies jwt =
    (p : JwtPayload) (secret : String) (ttl now later : ℕ)
    → later < now + ttl * 1000
    → jwt.verify (jwt.sign p secret ttl now) secret later ≡ some p

-- While both tokens of a session live: its access token authenticates its user and cannot be used to
-- refresh; its refresh token does not authenticate, and gives a new session to its user, with what is
-- known of the user's phone by then, if the user is still there.
pub issue_session-tokens :
    {Token : Type 0} (jwt : Jwt Token) (cfg : Config) (now later user : ℕ) (pv is_new : Bool)
    (u : User) (users : List User)
    → Verifies jwt
    → later < now + cfg.jwt_ttl_seconds * 1000
    → later < now + cfg.jwt_refresh_ttl_seconds * 1000
    → find_user user users ≡ some u
    → let s = issue_session jwt cfg now user pv is_new in
      (verify_access_token jwt cfg later s.access_token
        ≡ some (record { user_id = user; phone_verified = pv }))
      × (refresh_token jwt cfg later s.access_token users ≡ err unauthorized)
      × (verify_access_token jwt cfg later s.refresh_token ≡ none)
      × (refresh_token jwt cfg later s.refresh_token users
          ≡ ok (issue_session jwt cfg later u.id u.phone_verified false))
unfolding issue_session verify_access_token refresh_token
issue_session-tokens jwt cfg now later user pv is_new u users law lives lives_too there = (
  rw (law _ cfg.jwt_secret cfg.jwt_ttl_seconds now later lives, verify_access_token) refl,
  rw (law _ cfg.jwt_secret cfg.jwt_ttl_seconds now later lives, refresh_token) refl,
  rw (law _ cfg.jwt_secret cfg.jwt_refresh_ttl_seconds now later lives_too, verify_access_token)
      refl,
  rw (law _ cfg.jwt_secret cfg.jwt_refresh_ttl_seconds now later lives_too, there, refresh_token)
      refl,
)
