-- ===== src/Transparency/Links/Laws.antt =====
-- What a link that opens tells about the row it opened.
use akabbo.Prelude.{
  ℕ, ◌==◌, str_eq, ◌≡◌, Bool, true, false, ◌&&◌, ◌⊎◌, String, Option, none, some, List, [], ◌∷◌,
  arith, Option-cases, Bool-cases, inl, inr, eq_iff, ap, ◌∙◌, sym,
}
use akabbo.Prelude.Result.{ok}
use mathlib.Core.Path.{subst}
use akabbo.Transparency.Tables.{Event, find_event, map_event}
use akabbo.Transparency.Links.{
  Link, uuid, slug, find_slug, find_prefix, later, starts_with, find_link, admit, token_refused,
  resolve,
}

-- Every row has the property.
abbrev pub Each : (Event → Type 0) → List Event → Type 0
Each P [] = Unit {0}
Each P (e ∷ es) = P e × Each P es

module _ (P : Event → Type 0) where
  find_event-Each :
      (id : ℕ) (es : List Event) {e : Event} → Each P es → find_event id es ≡ some e → P e
  unfolding find_event
  find_event-Each id [] all h = absurd (cc)
  find_event-Each id (f ∷ es) (p, all) h = elim (Bool-cases (f.id == id)) [
    | inl here ↦ subst P (ground arith) p
    | inr there ↦ find_event-Each id es all (ground arith)
  ]

  find_slug-Each :
      (s : String) (es : List Event) {e : Event} → Each P es → find_slug s es ≡ some e → P e
  unfolding find_slug
  find_slug-Each s [] all h = absurd (cc)
  find_slug-Each s (f ∷ es) (p, all) h = elim (Bool-cases (str_eq f.slug s)) [
    | inl here ↦ subst P (ground arith) p
    | inr there ↦ find_slug-Each s es all (ground arith)
  ]

  later-Each :
      (e : Event) (o : Option Event) → P e → ((f : Event) → o ≡ some f → P f) → P (later e o)
  unfolding later
  later-Each e none p q = p
  later-Each e (some f) p q = elim (Bool-cases (akabbo.Prelude.ltb e.created_at f.created_at)) [
    | inl newer ↦ rw newer (q f (cc))
    | inr older ↦ rw older p
  ]

  find_prefix-Each :
      (s : String) (es : List Event) (e : Event) → Each P es → find_prefix s es ≡ some e → P e
  unfolding find_prefix
  find_prefix-Each s [] e all h = absurd (cc)
  find_prefix-Each s (f ∷ es) e (p, all) h =
      elim (Bool-cases (f.is_public && starts_with s f.slug)) [
        | inl here ↦
            subst P (ground arith)
              (later-Each f (find_prefix s es) p (λ g. find_prefix-Each s es g all))
        | inr there ↦ find_prefix-Each s es e all (ground arith)
      ]

  find_link-Each :
      (link : Link) (es : List Event) (e : Event) → Each P es → find_link link es ≡ some e → P e
  unfolding find_link
  find_link-Each (uuid id) es e all h = find_event-Each id es all h
  find_link-Each (slug s) es e all h = elim (Option-cases (find_slug s es)) [
    | inl missing ↦ find_prefix-Each s es e all (ground arith)
    | inr (f, there) ↦ subst P (ground arith) (find_slug-Each s es all there)
  ]

  -- A link that opens has passed both gates, and its row is one of the table.
  pub resolve-Each :
      (link : Link) (token : Option String) (es : List Event) (e : Event)
      → Each P es
      → resolve link token es ≡ ok e
      → P e × (e.is_public ≡ true) × (token_refused e.public_access_token token ≡ false)
  unfolding resolve admit
  resolve-Each link token es e all h = elim (Option-cases (find_link link es)) [
    | inl missing ↦ absurd (ground arith)
    | inr (f, there) ↦
        let same : f ≡ e = ground arith in
        (subst P same (find_link-Each link es f all there), ground arith, ground arith)
  ]

  -- An update of one row, and a property that it gives that row and that only this row may lack.
  pub map_event-Each :
      (id : ℕ) (g : Event → Event) (es : List Event)
      → ((e : Event) → (e.id == id) ≡ false → P e)
      → ((e : Event) → P (g e))
      → Each P (map_event id g es)
  unfolding map_event
  map_event-Each id g [] other own = tt
  map_event-Each id g (e ∷ es) other own = (
    elim (Bool-cases (e.id == id)) [
      | inl here ↦ rw here (own e)
      | inr there ↦ rw there (other e there)
    ],
    map_event-Each id g es other own,
  )

-- A token that is asked for and not refused is the one that was given.
pub token_refused-eq :
    (t : String) (token : Option String) → token_refused (some t) token ≡ false → token ≡ some t
unfolding token_refused
token_refused-eq t none h = absurd (cc)
token_refused-eq t (some given) h = ap some (ground (arith, eq_iff given t))
