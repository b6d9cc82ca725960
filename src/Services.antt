-- ===== src/Services.antt =====
-- The services of app/services.
pub mod Audit
pub mod CaseService
pub mod Pipeline
pub mod Loading
pub mod Ingest
