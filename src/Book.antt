-- ===== src/Book.antt =====
-- The rest of an event's book in libs/ledger/src: its people and their groups, its budget, and what of
-- the money received is set against which line of the budget.
pub mod Tables
pub mod People
pub mod Groups
pub mod Budget
pub mod Operations
mod Tests
