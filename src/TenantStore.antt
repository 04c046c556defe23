-- ===== src/TenantStore.antt =====
-- The tenant store of ISP mode (emarefirewall/tenants.py): the plans and `DictTenantStore`.
pub mod Plans
pub mod State
pub mod Fields
pub mod Tenants
pub mod Servers
pub mod Audits
pub mod Webhooks
pub mod Alerts
pub mod Tasks
pub mod Cgnat
pub mod Ipam
pub mod Reports
mod Tests
