-- ===== src/Domain.antt =====
-- The pure decision tables of app/domain.
pub mod Fsm
pub mod Diagnosis
pub mod Strategies
