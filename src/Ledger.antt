-- ===== src/Ledger.antt =====
-- libs/ledger: the append-only ledger of pledges and fulfillments.
pub mod Money
pub mod Status
pub mod Tables
pub mod Store
pub mod Pledges
pub mod Invariant
pub mod Fulfillments
pub mod Payments
pub mod Contributions
pub mod Operations
mod Tests
