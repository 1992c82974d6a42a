-- ===== src/Auth.antt =====
-- auth/auth.go: who may do what.
pub mod Active
pub mod Round
pub mod Policy
pub mod Submissions
pub mod Attestation
mod Tests
