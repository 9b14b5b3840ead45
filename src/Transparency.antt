-- ===== src/Transparency.antt =====
-- libs/transparency: the public page of an event, what the organizers set for it, and the texts that
-- they put on it.
pub mod Tables
pub mod Settings
pub mod Announcements
pub mod Instructions
pub mod Links
pub mod Contributors
pub mod Activity
pub mod Budget
pub mod Page
mod Tests
