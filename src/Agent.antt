-- ===== src/Agent.antt =====
-- The decision engine of app/agent.
pub mod Decide
