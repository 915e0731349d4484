-- ===== src/Tests/AdmissionTests.antt =====
-- The admission of a changed mapping on a cluster with one binding of each kind, and the
-- annotations of a custom resource's descriptors.
use service_binding_operator.Base.{◌≡◌, refl, true, Option, some, [], ◌∷◌, ok}
use service_binding_operator.Base.Dict.{lookup}
use service_binding_operator.Mapping.Validation.{Mapping}
use service_binding_operator.Binding.Annotation.{is_service_binding_annotation}
use service_binding_operator.Binding.Descriptors.{CrdDescription, binding_annotations}
use service_binding_operator.Binding.Descriptors.Named.{binding_annotations-accepted}
use service_binding_operator.Context.{Ref, WorkloadReference}
use service_binding_operator.Admission.{Codecs, serialize}
use service_binding_operator.Admission.Serialized.{Written, serialize-Written}
use service_binding_operator.Tests.Bindings.{client, mapper, db}

abbrev workload : WorkloadReference
workload = record {
  api_version = "v1";
  kind = "Deployment";
  name = "web";
  selector = Option.none;
  containers = [];
}

abbrev application : Ref
application = record {
  group = "";
  version = "v1";
  kind = "Deployment";
  resource = "";
  name = "web";
}

abbrev codecs : Codecs
codecs = record {
  decode = λ r. ok db;
  marshal_object = λ o. ok "object";
  marshal_user = λ u. u.username;
  unmarshal_user = λ t. some (record { username = t; groups = [] });
  marshal_mapping = λ m. ok m.name;
  get_annotations = λ o. [];
  set_annotations = λ anns o. o;
  workload_of_spec_binding = λ o. ok ("default", workload);
  application_of_binding = λ o. ok ("default", application);
}

abbrev changed : Mapping
changed = record {
  name = "Deployment.";
  versions =
      record { version = "*"; annotations = ""; containers = []; volumes = ".spec.volumes" } ∷ [];
}

serialize-Written_example : Written codecs client mapper changed [] ("update" ∷ "update" ∷ [])
unfolding serialize
serialize-Written_example =
    serialize-Written codecs client mapper changed [] ("update" ∷ "update" ∷ []) refl

abbrev description : CrdDescription
description = record {
  status_descriptors =
      record {
        path = "data.dbCredentials";
        x_descriptors =
            "urn:alm:descriptor:io.kubernetes:Secret"
            ∷ "service.binding:username:sourceValue=username" ∷ [];
      }
      ∷ [];
  spec_descriptors = [];
}

binding_annotations-accepted_example :
    is_service_binding_annotation "service.binding/username" ≡ ok true
unfolding binding_annotations lookup
binding_annotations-accepted_example =
    binding_annotations-accepted description "service.binding/username"
      "path={.status.data.dbCredentials},sourceValue=username,objectType=Secret" refl
