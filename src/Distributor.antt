-- ===== src/Distributor.antt =====
-- c3-distributor/contract/main.go: the distributor of author and curation rewards.
pub mod State
pub mod Policy
pub mod Funding
pub mod Book
pub mod Claim
pub mod Setup
pub mod Covered
pub mod Sound
pub mod BookSound
pub mod FundingSound
pub mod Paid
pub mod ClaimSound
pub mod SetupSound
pub mod Reachable
pub mod Peers
pub mod Tests
