-- ===== src/Vault.antt =====
-- c1-staking/contract/main.go: the staking contract as a whole, which keeps funded yield and an
-- airdrop envelope beside the stakes.
pub mod State
pub mod Setup
pub mod Yield
pub mod Airdrop
pub mod Envelope
pub mod YieldKept
pub mod SweepKept
pub mod AirdropKept
pub mod Reachable
pub mod Tests
