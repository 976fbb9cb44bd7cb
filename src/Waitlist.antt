-- ===== src/Waitlist.antt =====
-- src/waitlist: the founding network, its cohorts and their seats.
pub mod Capacity
pub mod Repository
pub mod Csv
pub mod Inbound
