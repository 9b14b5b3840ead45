-- ===== src/Outbox/Retry.antt =====
-- What becomes of a message whose handler throws.
use akabbo.Prelude.{
  ℕ, zero, suc, ◌==◌, ◌≡◌, Bool, true, false, ◌||◌, some, List, [], ◌∷◌, arith, if◌then◌else◌,
  Option-cases, Bool-cases, inl, inr,
}
use akabbo.Outbox.{
  Row, OutboxMessage, OutboxHandler, OutboxHandlerMap, is_pending, claim, reopen, dispatch_all,
  drain_once,
}

module _ {A : Type 0} (id : ℕ) where
  -- The first row with the id, and whether it waits.
  unfoldable pub is_waiting : List (Row A) → Bool
  is_waiting [] = false
  is_waiting (r ∷ rs) = if r.id == id then is_pending r.status else is_waiting rs

  unfoldable pub is_there : List (Row A) → Bool
  is_there [] = false
  is_there (r ∷ rs) = (r.id == id) || is_there rs

  unfoldable pub is_claimed : List (OutboxMessage A) → Bool
  is_claimed [] = false
  is_claimed (m ∷ ms) = (m.id == id) || is_claimed ms

  is_waiting-is_there : (rows : List (Row A)) → is_waiting rows ≡ true → is_there rows ≡ true
  unfolding is_waiting is_there
  is_waiting-is_there [] h = h
  is_waiting-is_there (r ∷ rs) h = ground (arith, is_waiting-is_there rs)

  -- A row that waits is still there after a claim, and waits still if it was not claimed.
  claim-is_waiting :
      (now n : ℕ) (rows : List (Row A))
      → is_waiting rows ≡ true
      → (is_there (claim now n rows).0 ≡ true)
        × (is_waiting (claim now n rows).0 || is_claimed (claim now n rows).1 ≡ true)
  unfolding claim is_waiting is_there is_claimed
  claim-is_waiting now zero [] h = absurd (ground arith)
  claim-is_waiting now zero (r ∷ rs) h = ground (arith, is_waiting-is_there rs)
  claim-is_waiting now (suc n) [] h = absurd (ground arith)
  claim-is_waiting now (suc n) (r ∷ rs) h =
      ground (arith, claim-is_waiting now n rs, claim-is_waiting now (suc n) rs)

  reopen-is_there :
      (k : ℕ) (rows : List (Row A)) → is_there rows ≡ true → is_there (reopen k rows) ≡ true
  unfolding reopen is_there
  reopen-is_there k [] h = h
  reopen-is_there k (r ∷ rs) h = ground (arith, reopen-is_there k rs)

  reopen-is_waiting :
      (k : ℕ) (rows : List (Row A))
      → is_there rows ≡ true
      → is_waiting rows || (k == id) ≡ true
      → is_waiting (reopen k rows) ≡ true
  unfolding reopen is_waiting is_there
  reopen-is_waiting k [] t h = t
  reopen-is_waiting k (r ∷ rs) t h = ground (arith, reopen-is_waiting k rs)

module _ {A S : Type 0} (id : ℕ) (handlers : OutboxHandlerMap A S) where
  -- Whatever is handed out under the id has a handler, and the handler throws.
  abbrev pub AlwaysThrows : Type 0
  AlwaysThrows =
      (m : OutboxMessage A)
      → m.id ≡ id
      → (h : OutboxHandler A S) × (handlers m.topic ≡ some h) × ((s : S) → (h m s).0 ≡ false)

  dispatch_all-is_waiting :
      (ms : List (OutboxMessage A)) (rows : List (Row A)) (s : S)
      → AlwaysThrows
      → is_there id rows ≡ true
      → is_waiting id rows || is_claimed id ms ≡ true
      → is_waiting id (dispatch_all handlers ms rows s).0.0 ≡ true
  unfolding is_claimed dispatch_all
  dispatch_all-is_waiting [] rows s throws t w = ground arith
  dispatch_all-is_waiting (m ∷ ms) rows s throws t w = elim (Bool-cases (m.id == id)) [
    | inl mine ↦
        let (h, there, thrown) = throws m (ground arith) in
        rw (there, thrown s, dispatch_all)
          (dispatch_all-is_waiting ms (reopen m.id rows) (h m s).1 throws
            (reopen-is_there id m.id rows t) (ground (arith, reopen-is_waiting id m.id rows t)))
    | inr other ↦ elim (Option-cases (handlers m.topic)) [
      | inl missing ↦
          rw (missing, dispatch_all) (dispatch_all-is_waiting ms rows s throws t (ground arith))
      | inr (h, there) ↦ elim (Bool-cases ((h m s).0)) [
        | inl returned ↦
            rw (there, returned, dispatch_all)
              (dispatch_all-is_waiting ms rows (h m s).1 throws t (ground arith))
        | inr thrown ↦
            rw (there, thrown, dispatch_all)
              (dispatch_all-is_waiting ms (reopen m.id rows) (h m s).1 throws
                (reopen-is_there id m.id rows t) (ground (arith, reopen-is_waiting id m.id rows t)))
      ]
    ]
  ]

  -- A message that waits, and whose handler throws whenever it is called, waits again after any drain,
  -- whatever the batch and whatever the other messages and their handlers do.
  pub drain_once_retries :
      (batch now : ℕ) (rows : List (Row A)) (s : S)
      → AlwaysThrows
      → is_waiting id rows ≡ true
      → is_waiting id (drain_once handlers batch now rows s).0.0 ≡ true
  unfolding drain_once
  drain_once_retries batch now rows s throws w =
      let (there, still) = claim-is_waiting id now batch rows w in
      dispatch_all-is_waiting (claim now batch rows).1 (claim now batch rows).0 s throws there still
