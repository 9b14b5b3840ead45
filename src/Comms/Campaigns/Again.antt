-- ===== src/Comms/Campaigns/Again.antt =====
-- Which messages of the campaign are queued after the worker's loop.
use akabbo.Prelude.{
  ℕ, ◌==◌, ◌≡◌, refl, Bool, true, false, ◌&&◌, List, [], ◌∷◌, map, arith, if◌then◌else◌,
  Option-cases, inl, inr, ==_refl,
}
use akabbo.Comms.Tables.{Db, Message, pending, map_message, is_queued}
use akabbo.Comms.Recipients.{any_id}
use akabbo.Comms.Campaigns.{SmsSendResult, accepted, rest_of, settle, settle_all}

module _ (ev campaign : ℕ) where
  -- Every message of the campaign that is still queued has one of the ids.
  unfoldable pub covered : List ℕ → List Message → Bool
  covered ids [] = true
  covered ids (m ∷ ms) =
      (if (m.event_id == ev) && (m.campaign_id == campaign) && is_queued m.status
        then any_id m.id ids
        else true)
      && covered ids ms

  pending_none : (ms : List Message) → covered [] ms ≡ true → pending ev campaign ms ≡ []
  unfolding covered pending
  pending_none [] h = refl
  pending_none (m ∷ ms) h = ground (arith, pending_none ms)

  covered_more :
      (i : ℕ) (ids : List ℕ) (ms : List Message)
      → covered ids ms ≡ true
      → covered (i ∷ ids) ms ≡ true
  unfolding covered
  covered_more i ids [] h = refl
  covered_more i ids (m ∷ ms) h = ground (arith, covered_more i ids ms)

  covered-pending :
      (ms : List Message) → covered (map (λ m. m.id) (pending ev campaign ms)) ms ≡ true
  unfolding covered pending
  covered-pending [] = refl
  covered-pending (m ∷ ms) =
      let more =
        covered_more m.id (map (λ m. m.id) (pending ev campaign ms)) ms (covered-pending ms) in
      ground (arith, more, covered-pending ms, ==_refl m.id)

  covered_map :
      (id : ℕ) (g : Message → Message) (ids : List ℕ) (ms : List Message)
      → ((m : Message) → is_queued (g m).status ≡ false)
      → covered (id ∷ ids) ms ≡ true
      → covered ids (map_message ev id g ms) ≡ true
  unfolding covered map_message
  covered_map id g ids [] done h = refl
  covered_map id g ids (m ∷ ms) done h = ground (arith, covered_map id g ids ms done, done m)

  covered-settle :
      (now : ℕ) (results : List SmsSendResult) (m : Message) (ids : List ℕ) (db : Db)
      → covered (m.id ∷ ids) db.messages ≡ true
      → covered ids (settle ev now results m db).messages ≡ true
  unfolding settle
  covered-settle now results m ids db h = elim (Option-cases (accepted results)) [
    | inl e ↦ rw (e, settle) (covered_map m.id _ ids db.messages (λ _. refl) h)
    | inr (r, e) ↦ rw (e, settle) (covered_map m.id _ ids db.messages (λ _. refl) h)
  ]

  settle_all-covered :
      (now : ℕ) (ms : List Message) (results : List SmsSendResult) (db : Db)
      → covered (map (λ m. m.id) ms) db.messages ≡ true
      → covered [] (settle_all ev now ms results db).0.messages ≡ true
  unfolding settle_all
  settle_all-covered now [] results db h = h
  settle_all-covered now (m ∷ ms) results db h =
      settle_all-covered now ms (rest_of results) (settle ev now results m db)
        (covered-settle now results m (map (λ m. m.id) ms) db h)

  -- Once the loop has passed over the pending messages, none is left.
  pub settle_all-pending :
      (now : ℕ) (results : List SmsSendResult) (db : Db)
      → pending ev campaign
          (settle_all ev now (pending ev campaign db.messages) results db).0.messages
        ≡ []
  settle_all-pending now results db = pending_none _ (
      settle_all-covered now (pending ev campaign db.messages) results db
        (covered-pending db.messages))
