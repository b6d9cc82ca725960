-- ===== src/Integrations.antt =====
-- The gateways of app/integrations.
pub mod Simulated
pub mod Razorpay
