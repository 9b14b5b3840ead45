-- ===== src/Access.antt =====
-- The gates that every operation passes first: libs/access/src/actions.ts, permission.service.ts,
-- event-status.ts and actor.ts.
pub mod Permission
pub mod Gates
pub mod Entitlement
mod Tests
