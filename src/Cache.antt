-- ===== src/Cache.antt =====
-- The cache of the firewall service (emarefirewall/cache.py): in memory, and on Redis with a circuit
-- breaker.
pub mod Memory
pub mod Breaker
pub mod Laws
pub mod Open
pub mod Tests
