-- ===== src/Plugins.antt =====
-- src/v2/application/plugins.
pub mod Capabilities
pub mod Loader
pub mod Registry
