-- ===== src/Governance.antt =====
-- The governance contract (contracts/governance/src/lib.rs).
pub mod State
pub mod Client
pub mod Admin
pub mod Voters
pub mod Proposals
pub mod Steps
pub mod Effects
pub mod Outcomes
pub mod Ballots
pub mod TallySteps
pub mod Tallies
pub mod Weighing
pub mod Replay
pub mod Lifecycle
pub mod Permanence
pub mod Decisions
pub mod Control
pub mod Paging
pub mod Tests
