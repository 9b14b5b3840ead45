-- ===== src/Identity/Sessions.antt =====
-- libs/identity/src/local-auth.provider.ts: the tokens of a session. The library `jsonwebtoken` is a
-- parameter, with its tokens as a type of its own.
pub mod Laws
use akabbo.Prelude.{ℕ, ◌+◌, ◌*◌, Bool, false, String, Option, none, some, List}
use akabbo.Prelude.Result.{Result, ok, err, unauthorized}
use akabbo.Identity.Users.{User, find_user}

pub data TokenType : Type 0 where
  access refresh : TokenType

-- `AccessJwtPayload` and `RefreshJwtPayload`
pub record JwtPayload : Type 0 where
  pub sub : ℕ
  pub pv : Bool
  pub type : Option TokenType

-- `jwt.sign` with its lifetime in seconds and `jwt.verify`, at a time in milliseconds.
pub record Jwt (Token : Type 0) : Type 0 where
  pub sign : JwtPayload → String → ℕ → ℕ → Token
  pub verify : Token → String → ℕ → Option JwtPayload

-- The part of the configuration that identity reads.
pub record Config : Type 0 where
  pub otp_ttl_seconds : ℕ
  pub otp_max_attempts : ℕ
  pub otp_cooldown_seconds : ℕ
  pub auth_expose_otp : Bool
  pub jwt_secret : String
  pub jwt_ttl_seconds : ℕ
  pub jwt_refresh_ttl_seconds : ℕ

-- `AuthSession`
pub record AuthSession (Token : Type 0) : Type 0 where
  pub user_id : ℕ
  pub access_token : Token
  pub refresh_token : Token
  pub expires_at : ℕ
  pub is_new_user : Bool

-- `AuthenticatedActor`
pub record AuthenticatedActor : Type 0 where
  pub user_id : ℕ
  pub phone_verified : Bool

module _ {Token : Type 0} (jwt : Jwt Token) (cfg : Config) where
  -- `issueSession`
  unfoldable pub issue_session : ℕ → ℕ → Bool → Bool → AuthSession Token
  issue_session now user pv is_new =
      let token : TokenType → ℕ → Token = λ type ttl.
        jwt.sign (record { sub = user; pv = pv; type = some type }) cfg.jwt_secret ttl now in
      record {
        user_id = user;
        access_token = token access cfg.jwt_ttl_seconds;
        refresh_token = token refresh cfg.jwt_refresh_ttl_seconds;
        expires_at = now + cfg.jwt_ttl_seconds * 1000;
        is_new_user = is_new;
      }

  -- `refreshToken`
  unfoldable pub refresh_token : ℕ → Token → List User → Result (AuthSession Token)
  unfolding issue_session find_user
  refresh_token now token users = elim (jwt.verify token cfg.jwt_secret now) [
    | none ↦ err unauthorized
    | some p ↦ elim p.type [
      | none ↦ err unauthorized
      | some t ↦ elim t [
        | access ↦ err unauthorized
        | refresh ↦ elim (find_user p.sub users) [
          | none ↦ err unauthorized
          | some u ↦ ok (issue_session now u.id u.phone_verified false)
        ]
      ]
    ]
  ]

  -- `verifyAccessToken`
  unfoldable pub verify_access_token : ℕ → Token → Option AuthenticatedActor
  verify_access_token now token = elim (jwt.verify token cfg.jwt_secret now) [
    | none ↦ none
    | some p ↦
        let actor = some (record { user_id = p.sub; phone_verified = p.pv }) in
        elim p.type [ none ↦ actor | some t ↦ elim t [ access ↦ actor | refresh ↦ none ] ]
  ]
