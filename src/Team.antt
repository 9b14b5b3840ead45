-- ===== src/Team.antt =====
-- Events and the people who run them: event.service.ts, membership.service.ts and
-- invitation.service.ts of libs/ledger.
pub mod Tables
pub mod Members
pub mod Invitations
pub mod Events
mod Tests
