-- ===== src/Circuit.antt =====
-- The Groth16 circuit of `score > threshold` (zk/circuit/src): its gadgets, the commitment and the
-- constraints, with what they hold a prover to.
pub mod Field
pub mod Range
pub mod Bits
pub mod Products
pub mod Checks
pub mod Commitment
pub mod Inputs
pub mod Constraints
pub mod Score
pub mod Reference
pub mod Exact
pub mod Conditions
pub mod Opening
pub mod Soundness
pub mod Honest
pub mod Completeness
pub mod Proofs
pub mod Tests
