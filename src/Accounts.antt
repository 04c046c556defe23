-- ===== src/Accounts.antt =====
-- The permissions and the recovery codes of a user (`User`, models.py).
pub mod User
pub mod Laws
pub mod Tests
