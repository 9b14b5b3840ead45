-- ===== src/Access/Entitlement.antt =====
-- The entitlement gate as the ledger sees it: libs/access/src/entitlement.service.ts promises a
-- decision for each action of a scope. The ledger's operations take it as an argument, and the
-- billing modules supply the code's own.
use akabbo.Prelude.{ℕ, Bool}

-- `EntitlementAction`
pub data EntitlementAction : Type 0 where
  add_contributor add_member create_pledge record_fulfillment send_sms use_ai : EntitlementAction

-- `EntitlementService.check({ eventId }, action)`, by its field `allowed`.
abbrev pub Check : Type 0
Check = ℕ → EntitlementAction → Bool
