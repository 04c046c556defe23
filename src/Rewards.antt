-- ===== src/Rewards.antt =====
-- Reward points (blockchain/reward_engine.py, and `EmarePoint` of models.py).
pub mod Tables
pub mod Points
pub mod Engine
pub mod Laws
pub mod Claims
pub mod Tests
