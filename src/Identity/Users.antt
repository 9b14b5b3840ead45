-- ===== src/Identity/Users.antt =====
-- libs/identity/src/user.service.ts: the accounts, found by phone or by email.
use akabbo.Prelude.{
  ℕ, ◌==◌, str_eq, Bool, true, false, String, Option, none, some, List, [], ◌∷◌, if◌then◌else◌,
}
use akabbo.Prelude.Result.{missing_record}
use akabbo.Prelude.Io.{Io, gets, found, modify, ◌>>=◌, ◌>>◌}

-- `UserView`, a row of `user`.
pub record User : Type 0 where
  pub id : ℕ
  pub phone : Option String
  pub phone_verified : Bool
  pub email : Option String
  pub email_verified : Bool
  pub display_name : Option String

-- A row of `auth_otp_challenge`.
pub record Challenge : Type 0 where
  pub id : ℕ
  pub phone : Option String
  pub email : Option String
  pub code_hash : String
  pub expires_at : ℕ
  pub consumed_at : Option ℕ
  pub attempts : ℕ
  pub created_at : ℕ

pub record Db : Type 0 where
  pub users : List User
  pub challenges : List Challenge

-- Does a nullable column hold the text?
abbrev pub holds : Option String → String → Bool
holds none s = false
holds (some t) s = str_eq t s

-- `prisma.user.findUnique({ where: { id } })`
unfoldable pub find_user : ℕ → List User → Option User
find_user id [] = none
find_user id (u ∷ us) = if u.id == id then some u else find_user id us

unfoldable pub find_phone : String → List User → Option User
find_phone p [] = none
find_phone p (u ∷ us) = if holds u.phone p then some u else find_phone p us

unfoldable pub find_email : String → List User → Option User
find_email e [] = none
find_email e (u ∷ us) = if holds u.email e then some u else find_email e us

unfoldable pub map_user : ℕ → (User → User) → List User → List User
map_user id g [] = []
map_user id g (u ∷ us) = (if u.id == id then g u else u) ∷ map_user id g us

abbrev pub phone_user : ℕ → String → User
phone_user id phone = record {
  id = id;
  phone = some phone;
  phone_verified = false;
  email = none;
  email_verified = false;
  display_name = none;
}

abbrev pub email_user : ℕ → String → User
email_user id email = record {
  id = id;
  phone = none;
  phone_verified = false;
  email = some email;
  email_verified = false;
  display_name = none;
}

abbrev add_user : User → Db → (User × Bool) × Db
add_user u db = ((u, true), record db { users = u ∷ db.users })

-- `findOrCreateByPhone`: the insert fails exactly if the phone is taken, and then its row is read.
unfoldable pub find_or_create_by_phone : ℕ → String → Db → (User × Bool) × Db
unfolding find_phone
find_or_create_by_phone id phone db = elim (find_phone phone db.users) [
  | some u ↦ ((u, false), db)
  | none ↦ add_user (phone_user id phone) db
]

-- `findOrCreateByEmail`
unfoldable pub find_or_create_by_email : ℕ → String → Db → (User × Bool) × Db
unfolding find_email
find_or_create_by_email id email db = elim (find_email email db.users) [
  | some u ↦ ((u, false), db)
  | none ↦ add_user (email_user id email) db
]

abbrev pub verify_phone : User → User
verify_phone u = record u { phone_verified = true }

abbrev pub verify_email : User → User
verify_email u = record u { email_verified = true }

-- `markPhoneVerified`
unfoldable pub mark_phone_verified : ℕ → Io Db (Unit {0})
unfolding find_user map_user
mark_phone_verified id = do
  row ← gets (λ db. find_user id db.users)
  found row missing_record
  modify (λ db. record db { users = map_user id verify_phone db.users })

-- `markEmailVerified`
unfoldable pub mark_email_verified : ℕ → Io Db (Unit {0})
unfolding find_user map_user
mark_email_verified id = do
  row ← gets (λ db. find_user id db.users)
  found row missing_record
  modify (λ db. record db { users = map_user id verify_email db.users })
