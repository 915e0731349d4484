-- ===== src/Handlers.antt =====
-- The handlers of the pipeline (pkg/reconcile/pipeline/handler), over the operations of a context.
pub mod Act
pub mod Operations
pub mod Discipline
pub mod Lawful
pub mod Collect
pub mod Project
pub mod Renaming
pub mod Pipelines
