-- ===== src/Rbac.antt =====
-- Roles and permissions (rbac.py).
pub mod Catalog
pub mod Matrix
pub mod Access
pub mod Laws
pub mod Tests
