-- ===== src/Binding.antt =====
-- Package `binding`: the annotations that say where a service's binding data stand.
pub mod Model
pub mod Jsonpath
pub mod Definition
pub mod Apply
pub mod Annotation
pub mod Names
pub mod Registry
pub mod Descriptors
pub mod Panics
pub mod Safety
pub mod Spec
