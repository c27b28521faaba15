-- ===== src/Url/Bounds.antt =====
-- a.yanin/waxy/src/url.c: where the scheme, the host, the path, the query and the fragment lie in the
-- buffer, for bounded allocations and texts below 2^63 bytes. The user name and the password are left out:
-- their regions may lie outside.
pub mod Defs
pub mod Scheme
pub mod Authority
pub mod Paths
pub mod Run
