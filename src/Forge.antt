-- ===== src/Forge.antt =====
-- src/forge.rs: which GitHub or GitLab repository a project name, a certificate identity or a pin
-- names, and whether a verified release is of the project that was asked for.
pub mod Names
pub mod Urls
pub mod Pins
pub mod Lists
pub mod Grammar
pub mod Check
pub mod Tests
