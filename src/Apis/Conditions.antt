-- ===== src/Apis/Conditions.antt =====
-- The builder of status conditions (apis/conditions.go).
use service_binding_operator.Base.{String, Option, none, some, Error}

pub data ConditionStatus : Type 0 where
  condition_true condition_false unset : ConditionStatus

-- The message is the error whose text it is, if there is one.
pub record Condition : Type 0 where
  pub condition_type : String
  pub status : ConditionStatus
  pub reason : String
  pub message : Option Error

abbrev pub binding_ready_type : String
binding_ready_type = "Ready"

abbrev pub collection_ready_type : String
collection_ready_type = "CollectionReady"

abbrev pub injection_ready_type : String
injection_ready_type = "InjectionReady"

abbrev pub empty_application_reason : String
empty_application_reason = "EmptyApplication"

abbrev pub application_not_found_reason : String
application_not_found_reason = "ApplicationNotFound"

abbrev pub service_not_found_reason : String
service_not_found_reason = "ServiceNotFound"

abbrev pub no_binding_data_reason : String
no_binding_data_reason = "NoBindingData"

abbrev pub binding_injected_reason : String
binding_injected_reason = "BindingInjected"

abbrev pub data_collected_reason : String
data_collected_reason = "DataCollected"

abbrev pub required_binding_not_found : String
required_binding_not_found = "RequiredBindingNotFound"

-- `Conditions()`. A builder has the fields of the condition that it builds, so `Build` is the
-- identity.
abbrev pub conditions : Condition
conditions = record { condition_type = ""; status = unset; reason = ""; message = none }

abbrev pub mark : ConditionStatus → String → Condition → Condition
mark s t b = record b { status = s; condition_type = t }

abbrev pub not_collection_ready : Condition → Condition
not_collection_ready = mark condition_false collection_ready_type

abbrev pub collection_ready : Condition → Condition
collection_ready = mark condition_true collection_ready_type

abbrev pub not_injection_ready : Condition → Condition
not_injection_ready = mark condition_false injection_ready_type

abbrev pub injection_ready : Condition → Condition
injection_ready = mark condition_true injection_ready_type

abbrev pub not_binding_ready : Condition → Condition
not_binding_ready = mark condition_false binding_ready_type

abbrev pub binding_ready : Condition → Condition
binding_ready = mark condition_true binding_ready_type

abbrev pub reason : String → Condition → Condition
reason r b = record b { reason = r }

abbrev pub binding_injected : Condition → Condition
binding_injected b = record b { reason = binding_injected_reason }

abbrev pub data_collected : Condition → Condition
data_collected b = record b { reason = data_collected_reason }

abbrev pub service_not_found : Condition → Condition
service_not_found b = record b { reason = service_not_found_reason }

abbrev pub application_not_found : Condition → Condition
application_not_found b = record b { reason = application_not_found_reason }

abbrev pub msg : Error → Condition → Condition
msg e b = record b { message = some e }
