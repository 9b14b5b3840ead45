-- ===== src/Billing.antt =====
-- libs/billing and the entitlement gate of libs/access: plans, credits, invoices and webhooks.
pub mod Tables
pub mod Entitlements
pub mod Credits
pub mod Webhook
pub mod Catalog
pub mod Plans
pub mod Trials
mod Tests
