-- ===== src/Workload.antt =====
-- The edits that a binding makes to a workload (pkg/reconcile/pipeline/mapping.go) and the reading
-- of a slice of resources (pkg/converter/unstructured.go).
pub mod Edit
pub mod Slices
pub mod Upserts
pub mod Container
