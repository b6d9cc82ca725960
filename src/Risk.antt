-- ===== src/Risk.antt =====
-- Risk scoring, app/risk.
pub mod Engine
