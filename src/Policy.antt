-- ===== src/Policy.antt =====
-- src/install_policy.rs: what a new trust record must keep of the one that was accepted before.
pub mod Provenance
pub mod Record
pub mod Signer
pub mod Continuity
pub mod Changes
pub mod Prior
pub mod Accepted
pub mod Tests
pub mod Constraints
