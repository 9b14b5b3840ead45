-- ===== src/Identity/Challenges/Cooldown.antt =====
-- How soon a second code can be asked for.
use akabbo.Prelude.{
  ℕ, ◌+◌, ◌*◌, leb, ◌<◌, ◌≡◌, ◌≢◌, Bool, true, false, String, Option, none, some, List, [], ◌∷◌,
  arith,
}
use akabbo.Prelude.Result.{err, bad_request}
use akabbo.Identity.Otp.{Crypto}
use akabbo.Identity.Users.{Db, Challenge, holds}
use akabbo.Identity.Sessions.{Config}
use akabbo.Identity.Challenges.{
  Channel, address, find_challenge, latest, assert_cooldown_elapsed, Draws, start,
}

-- Is it there, and `t` or later?
abbrev at_least : ℕ → Option ℕ → Bool
at_least t none = false
at_least t (some u) = leb t u

-- A challenge that is not consumed is at most as late as the latest.
latest_bound :
    (ch : Channel) (to : String) (id : ℕ) (c : Challenge) (cs : List Challenge)
    → find_challenge id cs ≡ some c
    → holds (address ch c) to ≡ true
    → c.consumed_at ≡ none
    → at_least c.created_at (latest ch to cs) ≡ true
unfolding latest find_challenge
latest_bound ch to id c [] there for unused = ground arith
latest_bound ch to id c (x ∷ cs) there for unused = ground (arith, latest_bound ch to id c cs)

-- While a challenge for a receiver is not consumed and younger than the cooldown, no other is issued to
-- that receiver: every start is refused, and nothing changes.
pub start_cooldown :
    (ch : Channel) (crypto : Crypto) (cfg : Config) (now id : ℕ) (d : Draws) (to : String)
    (c : Challenge) (db : Db)
    → find_challenge id db.challenges ≡ some c
    → holds (address ch c) to ≡ true
    → c.consumed_at ≡ none
    → cfg.otp_cooldown_seconds ≢ 0
    → now < c.created_at + cfg.otp_cooldown_seconds * 1000
    → start ch crypto cfg now d to db ≡ (err bad_request, db)
unfolding start assert_cooldown_elapsed
start_cooldown ch crypto cfg now id d to c db there for unused on young =
    ground (arith, latest_bound ch to id c db.challenges there for unused)
