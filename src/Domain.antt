-- ===== src/Domain.antt =====
-- The deterministic core of src/domain: members, matches and their evaluation, and the outbox.
pub mod Address
pub mod Member
pub mod Workflow
pub mod Qualification
pub mod Matching
pub mod Outbox
