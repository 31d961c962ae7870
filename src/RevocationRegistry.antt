-- ===== src/RevocationRegistry.antt =====
-- The revocation registry contract (contracts/revocation-registry/src/lib.rs). `State` has its
-- storage keys, errors and helpers, `Admin`, `Revoke` and `Queries` its entry points, `Steps` the
-- entry points as one step relation; the other modules prove what they are named for.
pub mod State
pub mod Admin
pub mod Revoke
pub mod Queries
pub mod Steps
pub mod Effects
pub mod Batch
pub mod Invariant
pub mod Permanence
pub mod Control
pub mod Pages
pub mod Decide
pub mod Tests
