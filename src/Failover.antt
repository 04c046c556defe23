-- ===== src/Failover.antt =====
-- The failover of the domain names between two data centres (failover_monitor.py).
pub mod Monitor
pub mod Laws
pub mod Tests
