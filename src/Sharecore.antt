-- ===== src/Sharecore.antt =====
-- reporter/sharecore: what the reporters compute off chain.
pub mod Tree
pub mod Climb
pub mod Accepted
pub mod Curve
pub mod Roots
pub mod Tests
