-- ===== src/Batch.antt =====
-- app/batch/run_eval.py: the evaluation. Baselines are the two comparisons without an agent, Runs the
-- two phases of a run, Score the counts of its report.
pub mod Baselines
pub mod Runs
pub mod Score
pub mod Report
