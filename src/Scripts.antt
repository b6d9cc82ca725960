-- ===== src/Scripts.antt =====
-- scripts/: the generator of the dataset, and the replay of a delivery.
pub mod Dataset
pub mod Replay
