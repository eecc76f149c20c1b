-- ===== src/Network.antt =====
-- internal/domain/vlan, switchinterface, route and acl: the vendor-neutral values that operations carry,
-- with their checks and normal forms.
pub mod Vlan
pub mod Interface
pub mod Addresses
pub mod Route
pub mod Acl
pub mod Telemetry
pub mod Tests
