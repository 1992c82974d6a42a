-- ===== src/Emission.antt =====
-- c2-emission/contract/main.go: the emission controller.
mod State
mod Schedule
mod Init
mod Allocation
mod Poke
mod Claim
pub mod Catchup
pub mod Split
pub mod Records
pub mod PokeCases
pub mod Solvency
pub mod Claiming
pub mod Buckets
pub mod Configured
pub mod Entries
pub mod Idle
pub mod Reachable
mod Tests
unfoldable pub use State.*
unfoldable pub use Schedule.*
unfoldable pub use Init.*
unfoldable pub use Allocation.*
unfoldable pub use Poke.*
unfoldable pub use Claim.*
