-- ===== src/Scripts/Dataset.antt =====
-- scripts/generate_dataset.py: Tables has its constants, Counts the number of cases of each scenario, Rows the
-- customers, the events and the ground truth. What the generator draws is an argument: Draws says between
-- which bounds.
pub mod Tables
pub mod Counts
pub mod Rows
pub mod Cases
