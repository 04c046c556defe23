-- ===== src/Ports.antt =====
-- The registry of ports (`PortRegistry`, models.py).
pub mod Registry
pub mod Laws
pub mod Tests
pub mod Released
