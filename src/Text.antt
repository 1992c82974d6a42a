-- ===== src/Text.antt =====
-- The texts that the contracts take apart: payload fields and state entries.
pub mod Epoch
pub mod Canonical
pub mod Fields
