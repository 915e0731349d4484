-- ===== src/Pipeline.antt =====
-- The pipeline: its flow control, the run of its handlers, and the items that it gathers.
pub mod Flow
pub mod Process
pub mod Halting
pub mod Items
pub mod SecretBacked
pub mod Gathered
