-- ===== src/Reports.antt =====
-- libs/ledger/src/report.service.ts and ledger-query.service.ts: what the book is asked.
pub mod Rows
pub mod Contributors
pub mod Csv
pub mod Link
pub mod Report
pub mod Queries
pub mod Funders
mod Tests
