-- ===== src/ScoreRangeVerifier.antt =====
-- The verifier of score-range proofs (contracts/score-range-verifier/src/lib.rs).
pub mod State
pub mod Key
pub mod Encoding
pub mod Groth16
pub mod Contract
pub mod Replay
pub mod Injective
pub mod Pairing
pub mod Version
pub mod Alias
pub mod Tests
