-- ===== src/Transparency/Links.antt =====
-- libs/transparency/src/public-view.service.ts, `resolve`: who may open a public link.
pub mod Laws
use akabbo.Prelude.{
  ℕ, ◌==◌, str_eq, ltb, Bool, true, false, not, ◌&&◌, String, Option, none, some, List, [], ◌∷◌,
  if◌then◌else◌,
}
use akabbo.Prelude.Result.{Result, err, ok, not_found, token_required}
use akabbo.Transparency.Tables.{Event, find_event}
use Prim.Native.Char.{code}

-- What a link holds: a text in the form of a UUID is an id, every other a slug.
pub data Link : Type 0 where
  uuid : ℕ → Link
  slug : String → Link

-- `prisma.event.findFirst({ where: { slug } })`
unfoldable pub find_slug : String → List Event → Option Event
find_slug s [] = none
find_slug s (e ∷ es) = if str_eq e.slug s then some e else find_slug s es

unfoldable pub starts_with : String → String → Bool
starts_with String.[] s = true
starts_with (String.◌∷◌ c p) String.[] = false
starts_with (String.◌∷◌ c p) (String.◌∷◌ d s) = (code c == code d) && starts_with p s

-- Of two rows, the one that was created last.
unfoldable pub later : Event → Option Event → Event
later e none = e
later e (some f) = if ltb e.created_at f.created_at then f else e

-- The newest public event whose slug begins with the text.
unfoldable pub find_prefix : String → List Event → Option Event
unfolding later starts_with
find_prefix p [] = none
find_prefix p (e ∷ es) =
    let rest = find_prefix p es in
    if e.is_public && starts_with p e.slug then some (later e rest) else rest

-- The lookup, with the fallback for a slug without its suffix.
unfoldable pub find_link : Link → List Event → Option Event
unfolding find_slug find_prefix
find_link (uuid id) es = find_event id es
find_link (slug s) es = elim (find_slug s es) [ some e ↦ some e | none ↦ find_prefix s es ]

-- `event.publicAccessToken !== null && token !== event.publicAccessToken`
unfoldable pub token_refused : Option String → Option String → Bool
token_refused none token = false
token_refused (some t) none = true
token_refused (some t) (some given) = not (str_eq given t)

-- The gates after the lookup.
unfoldable pub admit : Option String → Option Event → Result Event
unfolding token_refused
admit token none = err not_found
admit token (some e) =
    if not e.is_public
    then err not_found
    else if token_refused e.public_access_token token
    then err token_required
    else ok e

-- `resolve`
unfoldable pub resolve : Link → Option String → List Event → Result Event
unfolding admit find_link
resolve link token es = admit token (find_link link es)
