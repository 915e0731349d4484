-- ===== src/Lib.antt =====
-- The core of the Service Binding Operator: how it reads the services of a binding and their
-- annotations, how it collects the binding data in a secret, how it edits the workloads that it
-- binds to the services, and the pipeline of handlers that does this and undoes it.
--
-- Parts, and the code they model:
-- - Value: the values in an unstructured object, a `map[string]interface{}`; Value.Print is the
--   verb `%v` of package fmt on them.
-- - Machinery: the k8s.io libraries as parameters, accessors of paths and conversions of
--   resources, with what is relied on of them in the record IsLawful.
-- - Workload: pkg/reconcile/pipeline/mapping.go and `NestedResources` of
--   pkg/converter/unstructured.go. An edit (Workload.Edit) is a function from the object to a
--   result and the object as it is then, so that a write before an error stays. `setSlice` is
--   set_slice, and each method of `MetaContainer` and `MetaPodSpec` is the function of its name in
--   Workload.Container. The modules below it hold the lemmas on the methods.
-- - Mapping: the first part of pkg/reconcile/pipeline/mapping.go, from a template to a workload
--   mapping; Mapping.Validation is the webhook of
--   apis/spec/v1beta1/clusterworkloadresourcemapping_webhook.go. Mapping.Accepted joins the two.
-- - Binding: pkg/binding. Binding.Model is model.go, Binding.Jsonpath jsonpath.go,
--   Binding.Definition and Binding.Apply are definition.go, and Binding.Annotation is
--   annotationmapper.go; Binding.Spec is spec.go, Binding.Registry is registry/registry.go, and
--   Binding.Descriptors is pkg/reconcile/pipeline/crddescription.go. Package `jsonpath` of
--   client-go and the readers of secrets and config maps are parameters.
-- - Apis: apis/conditions.go and apis/common.go; Apis.Webhooks is the webhook of bindings
--   (apis/spec/v1beta1/servicebinding_webhook.go, and the same code in
--   apis/binding/v1alpha1/servicebinding_webhook.go), and Apis.Webhooks.History is what they let
--   into a cluster, as steps.
-- - Pipeline: pkg/reconcile/pipeline/builder/pipeline.go and
--   pkg/reconcile/pipeline/context/flow_ctrl.go, for any context that holds a flow control. A
--   handler returns or panics, and keeps what it changed. Pipeline.Items has the binding items of
--   pkg/reconcile/pipeline/api.go, and Pipeline.SecretBacked is
--   pkg/reconcile/pipeline/secretbackedbindings.go. Pipeline.Gathered is what the context of
--   pkg/reconcile/pipeline/context/impl.go gathers of them, and the name of its secret.
-- - Handlers: pkg/reconcile/pipeline/handler/collect/impl.go (Handlers.Collect and the modules
--   below it) and pkg/reconcile/pipeline/handler/project/impl.go (Handlers.Project). A handler is
--   a chain of steps (Handlers.Act) that go on, return early or panic, over the interface of a
--   context in pkg/reconcile/pipeline/api.go (Handlers.Operations); Handlers.Lawful is what is
--   relied on of a context, and Handlers.Discipline gives the rules for the flow control under
--   these steps. Handlers.Renaming has the handlers of handler/naming/impl.go (with
--   pkg/naming/naming.go) and handler/mapping/impl.go, with the template packages as parameters.
--   Handlers.Pipelines has the lists `defaultFlow` and `specFlow` of builder/pipeline.go.
-- - Context: pkg/reconcile/pipeline/context/impl.go and spec_binding_impl.go, both kinds of
--   bindings in one state (Context.State), with application.go in Context.Workloads and
--   context/service/service.go in Context.Service; Context.Lookup is
--   pkg/client/kubernetes/resource_lookup.go. Context.Reading reads the services and the
--   applications, Context.Persisting writes the results, and Context.Contexts makes them an
--   implementation of Handlers.Operations. The clients (Context.Client) are parameters: reading
--   does not change the cluster, and a call that writes gives an error or none and the cluster as
--   it is then. The containers of an application are places in its object.
-- - Admission: apis/webhooks/admission.go and apis/webhooks/validator.go: the requester that is put
--   into a binding, and the mapping that is put into the bindings that it accepts when it changes.
-- - Controllers: the reconciler of controllers/common.go, over a cluster that is a state with the
--   calls of it.
-- - Tests: runs on concrete objects, with functions for the parameters.
--
-- Recursion is structural, except for the digits of the number of an element (Base.Decimal), which
-- recurses on fuel: one more than the number, and a number has at most that many digits.
-- Numbers in objects are kept as texts, since the code only prints them. A Go map is a list of
-- pairs whose order stands for the order in which a loop visits the map; a Go error is its format
-- with its arguments, and the texts of errors are not computed. A nil dereference and an index out
-- of range are the result `panic`.
--
-- Not modelled: the controller of custom resource definitions; the clients of the cluster and the
-- set-up of the program; generated code, mocks and the vendored libraries.
pub mod Base
pub mod Value
pub mod Machinery
pub mod Workload
pub mod Binding
pub mod Apis
pub mod Pipeline
pub mod Mapping
pub mod Handlers
pub mod Context
pub mod Admission
pub mod Controllers
pub mod Tests
