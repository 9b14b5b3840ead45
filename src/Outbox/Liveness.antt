-- ===== src/Outbox/Liveness.antt =====
-- What is left of the queue after a series of drains.
use akabbo.Prelude.{
  ℕ, zero, suc, ◌-◌, ◌≤◌, ◌≡◌, refl, ◌∙◌, ap, true, String, some, List, [], ◌∷◌, arith,
  if◌then◌else◌, Option-cases, inl, inr,
}
use akabbo.Outbox.{
  Row, OutboxMessage, OutboxHandler, OutboxHandlerMap, is_pending, claim, dispatch_all, drain_once,
}

module _ {A : Type 0} where
  -- How many messages wait.
  unfoldable pub waiting : List (Row A) → ℕ
  waiting [] = 0
  waiting (r ∷ rs) = let n = waiting rs in if is_pending r.status then suc n else n

  -- A claim takes as many as it may, or all that wait.
  claim-waiting :
      (now n : ℕ) (rows : List (Row A)) → waiting (claim now n rows).0 ≡ waiting rows - n
  unfolding claim waiting
  claim-waiting now zero rows = omega arith
  claim-waiting now (suc n) [] = omega arith
  claim-waiting now (suc n) (r ∷ rs) =
      ground (arith, claim-waiting now n rs, claim-waiting now (suc n) rs)

module _ {A S : Type 0} where
  -- No handler of the map throws, whatever it is handed.
  abbrev pub NeverThrows : OutboxHandlerMap A S → Type 0
  NeverThrows handlers =
      (topic : String) (h : OutboxHandler A S) (m : OutboxMessage A) (s : S)
      → handlers topic ≡ some h
      → (h m s).0 ≡ true

  dispatch_all-rows :
      (handlers : OutboxHandlerMap A S) (ms : List (OutboxMessage A)) (rows : List (Row A)) (s : S)
      → NeverThrows handlers
      → (dispatch_all handlers ms rows s).0.0 ≡ rows
  unfolding dispatch_all
  dispatch_all-rows handlers [] rows s never = refl
  dispatch_all-rows handlers (m ∷ ms) rows s never = elim (Option-cases (handlers m.topic)) [
    | inl missing ↦ rw (missing, dispatch_all) (dispatch_all-rows handlers ms rows s never)
    | inr (h, there) ↦
        rw (there, never m.topic h m s there, dispatch_all)
          (dispatch_all-rows handlers ms rows (h m s).1 never)
  ]

  -- One drain after another, the k-th at the time `clock k`.
  unfoldable pub drain_all :
      OutboxHandlerMap A S → ℕ → (ℕ → ℕ) → ℕ → List (Row A) → S → List (Row A) × S
  drain_all handlers batch clock zero rows s = (rows, s)
  drain_all handlers batch clock (suc n) rows s =
      let st = (drain_once handlers batch (clock n) rows s).0 in
      drain_all handlers batch clock n st.0 st.1

  -- Where no handler throws and a batch is not empty, as many drains as messages wait, at whatever
  -- times, leave none that waits.
  pub drain_all-waiting :
      (handlers : OutboxHandlerMap A S) (batch : ℕ) (clock : ℕ → ℕ) (n : ℕ) (rows : List (Row A))
      (s : S)
      → NeverThrows handlers
      → 1 ≤ batch
      → waiting rows ≤ n
      → waiting (drain_all handlers batch clock n rows s).0 ≡ 0
  unfolding drain_all drain_once
  drain_all-waiting handlers batch clock zero rows s never some_batch few = omega arith
  drain_all-waiting handlers batch clock (suc n) rows s never some_batch few =
      let st = drain_once handlers batch (clock n) rows s in
      let after : waiting st.0.0 ≡ waiting rows - batch =
        ap waiting (dispatch_all-rows handlers (claim (clock n) batch rows).1 _ s never)
        ∙ claim-waiting (clock n) batch rows in
      drain_all-waiting handlers batch clock n st.0.0 st.0.1 never some_batch (omega arith)
