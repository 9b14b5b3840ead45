-- ===== src/Access/Gates.antt =====
-- libs/access/src/event-status.ts and actor.ts: the status gate and the context of an operation.
use akabbo.Prelude.{ℕ, ◌≡◌, Bool, true, false, arith}
use akabbo.Prelude.Result.{Result, ok, read_only, ◌>>◌, require}
use akabbo.Access.Permission.{Role, Action, can, assert}

-- `EventStatus`
pub data EventStatus : Type 0 where
  draft active paused closed archived : EventStatus

-- `OperationContext`: the actor, and the actor's standing in one event.
pub record OperationContext : Type 0 where
  pub user_id : ℕ
  pub event_id : ℕ
  pub role : Role
  pub status : EventStatus

-- `WRITABLE` and `isWritable`
abbrev pub is_writable : EventStatus → Bool
is_writable draft = true
is_writable active = true
is_writable paused = true
is_writable closed = false
is_writable archived = false

unfoldable pub assert_event_writable : EventStatus → Result (Unit {0})
assert_event_writable s = require (is_writable s) read_only

-- The two gates in the order in which every mutation passes them.
unfoldable pub gates : OperationContext → Action → Result (Unit {0})
unfolding assert assert_event_writable
gates ctx a = do assert ctx.role a; assert_event_writable ctx.status

-- The gates are open to exactly the roles that may act on an event that is still writable.
pub gates_open :
    (ctx : OperationContext) (a : Action)
    → gates ctx a ≡ ok tt
    → (can ctx.role a ≡ true) × (is_writable ctx.status ≡ true)
unfolding gates
gates_open ctx a h = ground arith
