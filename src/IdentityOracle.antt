-- ===== src/IdentityOracle.antt =====
-- The identity oracle contract (contracts/identity-oracle/src/lib.rs). `State` has the data and the
-- private helpers, `Admin`, `Credentials`, `Identities` and `Queries` the entry points, `Steps` those
-- that write as one relation; the other modules prove what they are named for.
pub mod State
pub mod Admin
pub mod Credentials
pub mod Identities
pub mod Queries
pub mod Active
pub mod Deactivation
pub mod Marks
pub mod Steps
pub mod Exact
pub mod ExactSteps
pub mod Links
pub mod ExactReach
pub mod Tests
