-- ===== src/Graph.antt =====
-- src/graph: the consent of the parties.
pub mod Consent
