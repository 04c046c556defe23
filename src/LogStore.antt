-- ===== src/LogStore.antt =====
-- The firewall log: a bounded buffer in memory, statistics, and a batched write to a database
-- (`LogStore`, emarefirewall/store.py).
pub mod Stats
pub mod Store
pub mod Query
mod Tests
