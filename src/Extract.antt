-- ===== src/Extract.antt =====
-- src/install_extract.rs: which archives may be unpacked, and where their entries go.
pub mod Names
pub mod Entries
pub mod Resolve
pub mod Tests
