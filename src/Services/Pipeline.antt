-- ===== src/Services/Pipeline.antt =====
-- app/services/pipeline.py: what a step reads, the steps by status, and the loop that drives a case.
pub mod Context
pub mod Escalation
pub mod Step
pub mod Advance
