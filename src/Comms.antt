-- ===== src/Comms.antt =====
-- libs/comms/src/sms.service.ts: SMS campaigns, paid for with the event's SMS credits.
pub mod Tables
pub mod Recipients
pub mod Campaigns
pub mod Delivery
mod Tests
