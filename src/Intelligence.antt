-- ===== src/Intelligence.antt =====
-- src/intelligence: the bound on what a model is given to read.
pub mod Bound
