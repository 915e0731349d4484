-- ===== src/Tests.antt =====
-- Runs of the program's operations on concrete objects, with the libraries that it calls given by
-- functions.
mod Cluster
mod Bindings
mod WorkloadTests
mod BindingTests
mod PipelineTests
mod ControllerTests
mod ItemTests
mod MappingTests
mod HandlerTests
mod ContextTests
mod AdmissionTests
