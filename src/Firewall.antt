-- ===== src/Firewall.antt =====
-- The firewall manager (emarefirewall/manager.py): the checks of its arguments, the quoting of what it sends,
-- and its operations as programs that send commands to a server and go on with the replies.
pub mod Quote
pub mod Mq
pub mod Forms
pub mod Validate
pub mod Program
pub mod Detect
pub mod Block
pub mod Change
pub mod Terse
pub mod Freshness
pub mod Rules
pub mod Services
pub mod Network
pub mod Forward
pub mod Tests
