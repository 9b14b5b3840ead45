-- ===== src/Billing/Plans/TopUp.antt =====
-- What an event's plan is after a purchase for the event.
use akabbo.Prelude.{
  ℕ, ==_refl, ltb, ◌≡◌, refl, ◌∙◌, ap, Bool, true, false, not, ◌&&◌, Option, none, some, List, [],
  ◌∷◌, arith, if◌then◌else◌, Bool-cases, inl, inr,
}
use akabbo.Prelude.Result.{ok}
use akabbo.Billing.Tables.{Db, Plan, Grant, GrantStatus, active, Invoice, of_event, matches}
use akabbo.Billing.Entitlements.{owning_account_id, account_of}
use akabbo.Billing.Webhook.{find_plan, upsert_grant, new_grant, put_grant}
use akabbo.Billing.Plans.{
  candidate, dearest, active_grant, find_code, plan_of_code, seats_from_features, entitlement_of,
  Live, resolve,
}

-- No grant is the event's, and at most one is: the column is unique.
unfoldable pub none_of : ℕ → List Grant → Bool
none_of ev [] = true
none_of ev (g ∷ gs) = not (matches (some ev) g.event_id) && none_of ev gs

unfoldable pub at_most_one : ℕ → List Grant → Bool
at_most_one ev [] = true
at_most_one ev (g ∷ gs) = if matches (some ev) g.event_id then none_of ev gs else at_most_one ev gs

-- A plan that is not there, or cheaper than `p`.
abbrev below : Plan → Option (Plan × GrantStatus) → Bool
below p none = true
below p (some q) = ltb q.0.price_minor p.price_minor

-- Every plan in force that the account has by itself is cheaper than `p`.
unfoldable pub cheaper : Option ℕ → Plan → List Plan → List Grant → Bool
cheaper account p plans [] = true
cheaper account p plans (g ∷ gs) =
    below p (candidate none account plans g) && cheaper account p plans gs

candidate-account :
    (ev : ℕ) (account : Option ℕ) (plans : List Plan) (g : Grant)
    → matches (some ev) g.event_id ≡ false
    → candidate (some ev) account plans g ≡ candidate none account plans g
unfolding candidate
candidate-account ev account plans g h = ground arith

dearest-below :
    (p : Plan) (x y : Option (Plan × GrantStatus))
    → below p x ≡ true
    → below p y ≡ true
    → below p (dearest x y) ≡ true
dearest-below p x y h h' = ground arith

dearest-bought :
    (p : Plan) (s : GrantStatus) (x : Option (Plan × GrantStatus))
    → below p x ≡ true
    → (dearest (some (p, s)) x ≡ some (p, s)) × (dearest x (some (p, s)) ≡ some (p, s))
dearest-bought p s x h = (ground arith, ground arith)

active_grant-none_of :
    (ev : ℕ) (account : Option ℕ) (p : Plan) (plans : List Plan) (gs : List Grant)
    → none_of ev gs ≡ true
    → cheaper account p plans gs ≡ true
    → below p (active_grant (some ev) account plans gs) ≡ true
unfolding active_grant none_of cheaper
active_grant-none_of ev account p plans [] h c = refl
active_grant-none_of ev account p plans (g ∷ gs) h c =
    rw (candidate-account ev account plans g (ground arith)) (
      dearest-below p (candidate none account plans g) (active_grant (some ev) account plans gs)
        (ground arith) (active_grant-none_of ev account p plans gs (ground arith) (ground arith)))

module _ (ev : ℕ) (account : Option ℕ) (p : Plan) (plans : List Plan) (g : Grant)
    (known : find_plan g.plan_id plans ≡ some p) (mine : g.event_id ≡ some ev)
    (live : g.status ≡ active) where
  candidate-bought :
      (h : Grant)
      → h.event_id ≡ some ev
      → h.plan_id ≡ g.plan_id
      → h.status ≡ active
      → candidate (some ev) account plans h ≡ some (p, active)
  unfolding candidate
  candidate-bought h e i s = ground (arith, ==_refl ev)

  active_grant-upsert_grant :
      (gs : List Grant)
      → at_most_one ev gs ≡ true
      → cheaper account p plans gs ≡ true
      → active_grant (some ev) account plans (upsert_grant ev g gs) ≡ some (p, active)
  unfolding active_grant upsert_grant at_most_one cheaper
  active_grant-upsert_grant [] one c = ap (λ x. dearest x none) (candidate-bought g mine refl live)
  active_grant-upsert_grant (h ∷ hs) one c = elim (Bool-cases (matches (some ev) h.event_id)) [
    | inl own ↦ rw own (
        ap (λ x. dearest x (active_grant (some ev) account plans hs))
          (candidate-bought
            (record h {
              plan_id = g.plan_id;
              status = g.status;
              period_start = g.period_start;
              period_end = g.period_end;
            })
            (ground arith) refl live)
        ∙ (dearest-bought p active (active_grant (some ev) account plans hs)
            (active_grant-none_of ev account p plans hs (ground arith) (ground arith))).0)
    | inr other ↦
        rw (other, candidate-account ev account plans h other)
          (ap (dearest (candidate none account plans h))
              (active_grant-upsert_grant hs (ground arith) (ground arith))
            ∙ (dearest-bought p active (candidate none account plans h) (ground arith)).1)
  ]

-- A paid purchase of a known plan for an event, where every plan in force that the owner's account has
-- by itself is cheaper: whatever plan the event had before, its limits of contributors and of seats and
-- its features are from then on those of the plan that was bought.
pub put_grant_replaces :
    (i : Invoice) (ev : ℕ) (p : Plan) (now : ℕ) (live : Live) (db : Db)
    → i.event_id ≡ some ev
    → find_plan p.id db.plans ≡ some p
    → find_code p.code db.plans ≡ some p
    → cheaper (owning_account_id ev db) p db.plans db.grants ≡ true
    → at_most_one ev db.grants ≡ true
    → (db' : Db) × (put_grant i p now db ≡ ok (tt, db'))
      × ((resolve (of_event ev) live db').plan_code ≡ p.code)
      × ((resolve (of_event ev) live db').max_contributors ≡ p.max_contributors)
      × ((resolve (of_event ev) live db').max_seats ≡ seats_from_features p.features)
      × ((resolve (of_event ev) live db').features ≡ p.features)
unfolding put_grant resolve entitlement_of account_of plan_of_code owning_account_id
put_grant_replaces i ev p now live db mine known listed low one =
    let grants = upsert_grant ev (new_grant i p now) db.grants in
    let best : active_grant (some ev) (owning_account_id ev db) db.plans grants ≡ some (p, active) =
      active_grant-upsert_grant ev (owning_account_id ev db) p db.plans (new_grant i p now) known
        mine refl db.grants one low in
    (
      record db { grants = grants },
      ground (arith, mine),
      ground (arith, best, listed),
      ground (arith, best, listed),
      ground (arith, best, listed),
      ground (arith, best, listed),
    )
