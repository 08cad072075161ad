-- ===== src/Collaboration.antt =====
-- src/v2/application/collaboration.
pub mod Ownership
pub mod Conflicts
pub mod Reviews
