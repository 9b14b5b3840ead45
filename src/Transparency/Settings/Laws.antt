-- ===== src/Transparency/Settings/Laws.antt =====
-- What a change of the settings does to the links of the event.
use akabbo.Prelude.{
  ℕ, ◌==◌, ◌≡◌, true, false, String, Option, none, some, ◌∙◌, arith, sym, ap, List, [], ◌∷◌, refl,
  Bool-cases, inl, inr,
}
use akabbo.Prelude.Result.{ok, Result-cases}
use akabbo.Access.Permission.{can, assert, public_configure}
use akabbo.Access.Gates.{OperationContext}
use akabbo.Transparency.Tables.{Db, Event, find_event, map_event, update_event, log}
use akabbo.Transparency.Links.{Link, uuid, find_link, admit, resolve, token_refused}
use akabbo.Transparency.Links.Laws.{resolve-Each, map_event-Each, token_refused-eq}
use akabbo.Transparency.Settings.{
  PublicSettingsView, UpdatePublicSettingsInput, find_event_or_throw, changed, with_token,
  update_settings, set_token, rotate_access_token, clear_access_token,
}

module _ (ctx : OperationContext) (db db' : Db) (v : PublicSettingsView) where
  update_settings-events :
      (input : UpdatePublicSettingsInput)
      → update_settings ctx input db ≡ ok (v, db')
      → db'.events ≡ map_event ctx.event_id (changed input) db.events
  unfolding update_settings find_event_or_throw update_event log
  update_settings-events input h = ground arith

  rotate_access_token-events :
      (token : String)
      → rotate_access_token ctx token db ≡ ok (v, db')
      → db'.events ≡ map_event ctx.event_id (with_token (some token)) db.events
  unfolding rotate_access_token set_token find_event_or_throw update_event log
  rotate_access_token-events token h = ground arith

  clear_access_token-events :
      clear_access_token ctx db ≡ ok (v, db')
      → db'.events ≡ map_event ctx.event_id (with_token none) db.events
  unfolding clear_access_token set_token find_event_or_throw update_event log
  clear_access_token-events h = ground arith

  -- Once the settings of an event are saved with the page switched off, no link and no token opens it:
  -- whatever a link still opens is another event.
  pub revoked_everywhere :
      (input : UpdatePublicSettingsInput)
      → update_settings ctx input db ≡ ok (v, db')
      → input.is_public ≡ some false
      → (link : Link) (token : Option String) (e : Event) → resolve link token db'.events ≡ ok e
      → (e.id == ctx.event_id) ≡ false
  unfolding changed
  revoked_everywhere input h off link token e opens =
      let rows =
        map_event-Each (λ f. (f.id == ctx.event_id) ≡ true → f.is_public ≡ false) ctx.event_id
          (changed input) db.events (λ f other own. cc) (λ f own. ground arith) in
      let (closed, public, _) =
        resolve-Each (λ f. (f.id == ctx.event_id) ≡ true → f.is_public ≡ false) link token
          db'.events e (rw (update_settings-events input h) rows) opens in
      elim (Bool-cases (e.id == ctx.event_id)) [
        | inl own ↦ absurd (cc (closed own, public))
        | inr other ↦ other
      ]

  -- After a token was rotated, whoever opens the event, by whatever link, gave the new token.
  pub rotated_everywhere :
      (fresh : String)
      → rotate_access_token ctx fresh db ≡ ok (v, db')
      → (link : Link) (token : Option String) (e : Event) → resolve link token db'.events ≡ ok e
      → (e.id == ctx.event_id) ≡ true
      → token ≡ some fresh
  unfolding with_token
  rotated_everywhere fresh h link token e opens own =
      let rows =
        map_event-Each (λ f. (f.id == ctx.event_id) ≡ true → f.public_access_token ≡ some fresh)
          ctx.event_id (with_token (some fresh)) db.events (λ f other here. cc)
          (λ f here. ground arith) in
      let (kept, _, agreed) =
        resolve-Each (λ f. (f.id == ctx.event_id) ≡ true → f.public_access_token ≡ some fresh) link
          token db'.events e (rw (rotate_access_token-events fresh h) rows) opens in
      token_refused-eq fresh token (ap (λ t. token_refused t token) (sym (kept own)) ∙ agreed)

find_event-map_event :
    (id : ℕ) (g : Event → Event) (es : List Event) (e : Event)
    → ((f : Event) → (g f).id ≡ f.id)
    → find_event id es ≡ some e
    → find_event id (map_event id g es) ≡ some (g e)
unfolding find_event map_event
find_event-map_event id g [] e same h = absurd (cc)
find_event-map_event id g (f ∷ es) e same h = elim (Bool-cases (f.id == id)) [
  | inl here ↦ ground (arith, same f)
  | inr there ↦ ground (arith, find_event-map_event id g es e same)
]

-- Where the owner of a public event drops its token, the call goes through, and the event then opens by
-- its id for everyone, whatever token comes with the link.
pub cleared_opens :
    (ctx : OperationContext) (db : Db) (e : Event)
    → can ctx.role public_configure ≡ true
    → find_event ctx.event_id db.events ≡ some e
    → e.is_public ≡ true
    → (v : PublicSettingsView) × (db' : Db) × (clear_access_token ctx db ≡ ok (v, db'))
      × ((token : Option String)
          → resolve (uuid ctx.event_id) token db'.events ≡ ok (with_token none e))
unfolding clear_access_token set_token find_event_or_throw update_event log assert
cleared_opens ctx db e may there public = elim (Result-cases (clear_access_token ctx db)) [
  | inr (_, bad) ↦ absurd (ground (arith, may, there))
  | inl ((v, db'), done) ↦
      let rows =
        find_event-map_event ctx.event_id (with_token none) db.events e
          (λ f. unfold with_token in refl) there in
      let shown : (with_token none e).is_public ≡ true = unfold with_token in public in
      let no_token : (with_token none e).public_access_token ≡ none = unfold with_token in refl in
      (
        v,
        db',
        done,
        λ token. rw (clear_access_token-events ctx db db' v done) (
            unfold resolve in
            unfold find_link in
            rw rows (unfold admit in rw (shown, no_token) (unfold token_refused in refl))),
      )
]
