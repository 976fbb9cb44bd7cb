-- ===== src/Extract.antt =====
-- src/extract: the check of a quote against its source.
pub mod Spans
