-- ===== src/CreditOracle.antt =====
-- The credit oracle contract (contracts/credit-oracle/src/lib.rs) with the types that it shares
-- (contracts/credit-oracle-types/src/lib.rs). `Types` and `State` have the data, `Scoring` the pure
-- arithmetic, and `Admin`, `Registration`, `Inputs`, `Weights`, `Compute`, `Reading` and `Disputes`
-- the entry points; the other modules prove what they are named for.
pub mod Types
pub mod Scoring
pub mod State
pub mod Admin
pub mod Registration
pub mod Inputs
pub mod Compute
pub mod Reading
pub mod Weights
pub mod Disputes
pub mod Steps
pub mod Frame
pub mod Timelock
pub mod Index
pub mod Listing
pub mod Repayments
pub mod Migration
pub mod Scores
pub mod Writes
pub mod Control
pub mod DisputeMoves
pub mod DisputeIndex
pub mod Success
pub mod Tally
pub mod Tests
