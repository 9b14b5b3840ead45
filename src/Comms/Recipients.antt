-- ===== src/Comms/Recipients.antt =====
-- libs/comms/src/sms.service.ts: who a campaign is for, and the text that each of them gets. The
-- collation of `ORDER BY display_name` is the database's, the parameter `order`.
use akabbo.Prelude.{
  ℕ, zero, suc, ◌+◌, ◌==◌, leb, Bool, true, false, not, ◌&&◌, ◌||◌, String, none, some, List, [],
  ◌∷◌, if◌then◌else◌,
}
use akabbo.Prelude.Int.{ℤ, pos, ◌+ℤ◌, ltb_ℤ}
use akabbo.Ledger.Status.{PledgeStatus, cancelled}
use akabbo.Ledger.Store.{find_pledge}
use akabbo.Ledger.Tables.{Db, Person, Pledge, Fulfillment}
use Prim.Native.Char.{Char, code}
use Prim.Native.String.{◌++◌ as append}

-- `Recipient`
pub record Recipient : Type 0 where
  pub person_id : ℕ
  pub display_name : String
  pub phone : String

abbrev pub is_cancelled : PledgeStatus → Bool
is_cancelled cancelled = true
is_cancelled _ = false

-- A pledge of the person that counts.
abbrev pub counts_for : ℕ → ℕ → Pledge → Bool
counts_for ev person p =
    (p.event_id == ev) && (p.person_id == person) && not (is_cancelled p.status)

-- `COALESCE((SELECT SUM(committed_value) FROM pledge ...), 0)`
unfoldable pub committed_by : ℕ → ℕ → List Pledge → ℤ
committed_by ev person [] = pos 0
committed_by ev person (p ∷ ps) =
    if counts_for ev person p
    then p.committed_value +ℤ committed_by ev person ps
    else committed_by ev person ps

-- `COALESCE((SELECT SUM(f.value) FROM fulfillment f JOIN pledge pl2 ...), 0)`
unfoldable pub received_from : ℕ → ℕ → List Pledge → List Fulfillment → ℤ
received_from ev person ps [] = pos 0
received_from ev person ps (f ∷ fs) =
    if (f.event_id == ev)
      && elim (find_pledge ev f.pledge_id ps) [ none ↦ false | some p ↦ counts_for ev person p ]
    then f.value +ℤ received_from ev person ps fs
    else received_from ev person ps fs

-- The people of the event who have a phone and pass the test, as recipients.
unfoldable pub with_phone : ℕ → (Person → Bool) → List Person → List Recipient
with_phone ev keep [] = []
with_phone ev keep (p ∷ ps) =
    let rest = with_phone ev keep ps in
    elim p.phone [
      | none ↦ rest
      | some phone ↦
          if (p.event_id == ev) && keep p
          then record { person_id = p.id; display_name = p.display_name; phone = phone } ∷ rest
          else rest
    ]

-- `id = ANY(personIds)`
abbrev pub any_id : ℕ → List ℕ → Bool
any_id id [] = false
any_id id (i ∷ is) = (id == i) || any_id id is

module _ (order : List Recipient → List Recipient) where
  -- `unpaidWithPhone`
  unfoldable pub unpaid_with_phone : ℕ → Db → List Recipient
  unfolding with_phone committed_by received_from
  unpaid_with_phone ev db = order (
      with_phone ev
        (λ p.
          ltb_ℤ (received_from ev p.id db.pledges db.fulfillments)
            (committed_by ev p.id db.pledges))
        db.people)

  -- `allWithPhone`
  unfoldable pub all_with_phone : ℕ → Db → List Recipient
  unfolding with_phone
  all_with_phone ev db = order (with_phone ev (λ _. true) db.people)

  -- `specificWithPhone`
  unfoldable pub specific_with_phone : ℕ → List ℕ → Db → List Recipient
  unfolding with_phone
  specific_with_phone ev ids db = order (with_phone ev (λ p. any_id p.id ids) db.people)

  -- The resolver of a reminder: the people named, or everyone outstanding.
  unfoldable pub reminder_recipients : List ℕ → ℕ → Db → List Recipient
  unfolding specific_with_phone unpaid_with_phone
  reminder_recipients [] ev db = unpaid_with_phone ev db
  reminder_recipients (id ∷ ids) ev db = specific_with_phone ev (id ∷ ids) db

  -- The resolver of an announcement: the people named, or everyone with a phone.
  unfoldable pub announcement_recipients : List ℕ → ℕ → Db → List Recipient
  unfolding specific_with_phone all_with_phone
  announcement_recipients [] ev db = all_with_phone ev db
  announcement_recipients (id ∷ ids) ev db = specific_with_phone ev (id ∷ ids) db

-- A character of the pattern `/\{name\}/gi`, in either case if it is a letter.
abbrev is_char : ℕ → Char → Bool
is_char n c = (code c == n) || (leb 97 n && leb n 122 && (code c + 32 == n))

-- Does the text begin with the codes, whatever their case?
abbrev begins : List ℕ → String → Bool
begins [] s = true
begins (n ∷ ns) String.[] = false
begins (n ∷ ns) (String.◌∷◌ c s) = is_char n c && begins ns s

-- The codes of `{name}`.
abbrev placeholder : List ℕ
placeholder = 123 ∷ 110 ∷ 97 ∷ 109 ∷ 101 ∷ 125 ∷ []

abbrev take : ℕ → String → String
take zero s = String.[]
take (suc n) String.[] = String.[]
take (suc n) (String.◌∷◌ c s) = String.◌∷◌ c (take n s)

abbrev drop : ℕ → String → String
drop zero s = s
drop (suc n) String.[] = String.[]
drop (suc n) (String.◌∷◌ c s) = drop n s

-- What JavaScript puts in place of a match: in the new text `$$` is a dollar, `$&` the match, and
-- the dollar with a backtick or a quote is the text before or after the match.
unfoldable pub expand : String → String → String → String → String
expand before m after String.[] = String.[]
expand before m after (String.◌∷◌ c String.[]) = String.◌∷◌ c String.[]
expand before m after (String.◌∷◌ c (String.◌∷◌ d s)) =
    let rest = expand before m after s in
    let later = expand before m after (String.◌∷◌ d s) in
    if not (code c == 36)
    then String.◌∷◌ c later
    else if code d == 36
    then String.◌∷◌ d rest
    else if code d == 38
    then append m rest
    else if code d == 96
    then append before rest
    else if code d == 39
    then append after rest
    else String.◌∷◌ c later

-- The scan of `replace` over a text after `before`, with `skip` characters of a match to pass over.
unfoldable pub replace_from : String → String → ℕ → String → String
unfolding expand
replace_from name before skip String.[] = String.[]
replace_from name before (suc k) (String.◌∷◌ c s) =
    replace_from name (append before (String.◌∷◌ c String.[])) k s
replace_from name before zero (String.◌∷◌ c s) =
    let here = begins placeholder (String.◌∷◌ c s) in
    let rest =
      replace_from name (append before (String.◌∷◌ c String.[])) (if here then 5 else 0) s in
    if here
    then append (expand before (take 6 (String.◌∷◌ c s)) (drop 5 s) name) rest
    else String.◌∷◌ c rest

-- `personalise`
unfoldable pub personalise : String → String → String
unfolding replace_from
personalise template name = replace_from name String.[] 0 template
