-- ===== src/Store.antt =====
-- src/store/db.js: what the repositories use of one collection of a `Store`. The engine under it is a
-- package; it is a parameter here, with its laws, and the handling of a row stands on it.
pub mod Cells
pub mod Keys
pub mod Outbox
pub mod Records
pub mod Matches
pub mod Jobs
pub mod Cursors
pub mod Observations
pub mod Evidence
