-- ===== src/Url/Progress.antt =====
-- Every handler goes on: it moves to a later state, or keeps state and position.
pub mod Defs
pub mod Scheme
pub mod Authority
pub mod Paths
