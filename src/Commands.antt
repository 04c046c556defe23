-- ===== src/Commands.antt =====
-- Which commands a role may run (command_security.py).
pub mod Patterns
pub mod Check
pub mod Laws
pub mod Tests
