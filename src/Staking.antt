-- ===== src/Staking.antt =====
-- c1-staking/contract/main.go: staking with a checkpointed history.
pub mod State
pub mod Checkpoints
pub mod Search
pub mod Histories
pub mod Credit
pub mod Epochs
pub mod Entrypoints
pub mod Books
pub mod Taking
pub mod Custody
pub mod Leaving
pub mod Claims
pub mod Entered
pub mod Reachable
pub mod Answers
mod Tests
