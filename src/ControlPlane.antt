-- ===== src/ControlPlane.antt =====
-- packages/control-plane: the global authority over placements and public projections.
pub mod Placement
pub mod Publication
pub mod Stats
pub mod Objects
pub mod Resources
pub mod Regional
pub mod Outbox
pub mod Migration
mod Tests
