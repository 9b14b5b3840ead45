-- ===== src/Outbox/Tests.antt =====
-- Runs of the drain on a short queue.
use akabbo.Prelude.{
  ℕ, ◌+◌, ◌≡◌, ◌≤◌, refl, sym, ap, Bool, true, false, Option, none, some, List, [], ◌∷◌, arith,
}
use akabbo.Outbox.{Row, OutboxMessage, OutboxHandler, OutboxHandlerMap, pending, drain_once}
use akabbo.Outbox.Liveness.{waiting, NeverThrows, drain_all, drain_all-waiting}
use akabbo.Outbox.Retry.{is_waiting, AlwaysThrows, drain_once_retries}

abbrev row : ℕ → Row ℕ
row id = record {
  id = id;
  event_id = 1;
  topic = "sms.campaign";
  payload = 5;
  status = pending;
  attempts = 0;
  processed_at = none;
}

abbrev rows : List (Row ℕ)
rows = row 1 ∷ row 2 ∷ row 3 ∷ []

-- Every topic has a handler, which adds the payload to a sum; or one that always throws.
abbrev adds : OutboxHandlerMap ℕ ℕ
adds topic = some (λ m s. (true, m.payload + s))

abbrev throws : OutboxHandlerMap ℕ ℕ
throws topic = some (λ m s. (false, s))

drained : (drain_once adds 2 9 rows 0).1 ≡ 2
unfolding drain_once
drained = refl

summed : (drain_once adds 2 9 rows 0).0.1 ≡ 10
unfolding drain_once
summed = refl

-- Whether a handler that may be there returns.
abbrev returns : OutboxMessage ℕ → ℕ → Option (OutboxHandler ℕ ℕ) → Bool
returns m s none = true
returns m s (some h) = (h m s).0

adds_never : NeverThrows adds
adds_never topic h m s e = sym (ap (returns m s) e)

few : waiting rows ≤ 3
unfolding waiting
few = omega arith

drain_all-waiting_example : waiting (drain_all adds 2 (λ k. k) 3 rows 0).0 ≡ 0
drain_all-waiting_example = drain_all-waiting adds 2 (λ k. k) 3 rows 0 adds_never (omega arith) few

throws_always : AlwaysThrows 2 throws
throws_always m e = ((λ m s. (false, s)), refl, λ s. refl)

waits : is_waiting 2 rows ≡ true
unfolding is_waiting
waits = refl

drain_once_retries_example : is_waiting 2 (drain_once throws 2 9 rows 0).0.0 ≡ true
drain_once_retries_example = drain_once_retries 2 throws 2 9 rows 0 throws_always waits
