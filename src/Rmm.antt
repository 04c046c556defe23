-- ===== src/Rmm.antt =====
-- The store of the remote monitoring and of the tickets (RMMStore, emarefirewall/rmm.py), table by table.
pub mod Tasks
pub mod Tickets
pub mod Alerts
pub mod Threats
pub mod Devices
pub mod Correlation
pub mod Cases
pub mod Actions
pub mod Playbooks
pub mod Tests
