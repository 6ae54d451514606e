-- ===== src/Util.antt =====
-- pkg/util: slices of strings and roles, the phase of a cluster from its machines, and the lookups
-- between machines and clusters.
pub mod Slices
pub mod Status
pub mod Lookup
