-- ===== src/Security.antt =====
-- src/security.rs: what a container may do, and as whom it runs.
pub mod Capabilities
pub mod Users
