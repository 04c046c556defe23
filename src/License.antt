-- ===== src/License.antt =====
-- The licence of an installation (license_manager.py).
pub mod Info
pub mod Verify
pub mod Laws
pub mod Tests
