-- ===== src/Tenancy.antt =====
-- The tenant of a request, and what its user may see (core/tenant.py, core/helpers.py).
pub mod Request
pub mod Access
pub mod Laws
pub mod Tests
