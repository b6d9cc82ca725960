-- ===== src/Policy.antt =====
-- The policy gate of app/policy.
pub mod Config
pub mod Rules
pub mod Engine
