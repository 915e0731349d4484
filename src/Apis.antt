-- ===== src/Apis.antt =====
-- Package `apis`: conditions, finalizers, the requester, the update check and the webhooks of bindings.
pub mod Conditions
pub mod Common
pub mod Webhooks
