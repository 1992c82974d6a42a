-- ===== src/Merkle.antt =====
-- The share book's Merkle tree: c3-distributor/contract/main.go checks what
-- reporter/sharecore/merkle.go builds.
pub mod Hex
pub mod Proof
pub mod Printed
