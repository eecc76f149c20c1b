-- ===== src/Plugin.antt =====
-- pkg/pluginapi, the contract between the core and the vendor plugins, and internal/pluginregistry.
pub mod Version
pub mod Metadata
pub mod Registry
pub mod Plans
pub mod Tests
