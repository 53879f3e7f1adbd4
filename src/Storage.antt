-- ===== src/Storage.antt =====
-- packages/storage: bundles of skills.
pub mod Paths
