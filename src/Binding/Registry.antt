-- ===== src/Binding/Registry.antt =====
-- The annotations that are known for kinds of services (pkg/binding/registry/registry.go).
use service_binding_operator.Base.{
  String, Bool, ◌&&◌, Option, none, some, List, [], ◌∷◌, ◌==◌, if◌then◌else◌,
}
use service_binding_operator.Base.Dict.{Dict}
use service_binding_operator.Machinery.{GroupVersionKind}

-- The table, as `Register` keeps it.
abbrev pub Registry : Type 0
Registry = List (GroupVersionKind × Dict String)

abbrev kind : (group version name : String) → GroupVersionKind
kind group version name = record { group = group; version = version; kind = name }

abbrev same_kind : GroupVersionKind → GroupVersionKind → Bool
same_kind a b = a.group == b.group && (a.version == b.version && a.kind == b.kind)

-- `ServiceAnnotations`, as `New` makes it
unfoldable pub service_annotations : Registry
service_annotations =
    (
      kind "redis.redis.opstreelabs.in" "v1beta1" "Redis",
      ("service.binding/type", "redis")
          ∷ ("service.binding/host", "path={.metadata.name}")
          ∷ (
            "service.binding/password",
            "path={.spec.kubernetesConfig.redisSecret.name},objectType=Secret,sourceKey=password,optional=true",
          )
          ∷ [],
    )
    ∷ (
      kind "postgres-operator.crunchydata.com" "v1beta1" "PostgresCluster",
      ("service.binding/type", "postgresql")
          ∷ ("service.binding/provider", "crunchydata")
          ∷ ("service.binding", "path={.metadata.name}-pguser-{.metadata.name},objectType=Secret")
          ∷ (
            "service.binding/database",
            "path={.metadata.name}-pguser-{.metadata.name},objectType=Secret,sourceKey=dbname",
          )
          ∷ (
            "service.binding/username",
            "path={.metadata.name}-pguser-{.metadata.name},objectType=Secret,sourceKey=user",
          )
          ∷ ("service.binding/cert", "path={.metadata.name}-cluster-cert,objectType=Secret")
          ∷ [],
    )
    ∷ (
      kind "pxc.percona.com" "v1-8-0" "PerconaXtraDBCluster",
      ("service.binding/type", "mysql")
          ∷ ("service.binding/provider", "percona")
          ∷ ("service.binding/database", "mysql")
          ∷ ("service.binding", "path={.spec.secretsName},objectType=Secret")
          ∷ ("service.binding/host", "path={.status.host}")
          ∷ ("service.binding/port", "3306")
          ∷ ("service.binding/username", "root")
          ∷ (
            "service.binding/password", "path={.spec.secretsName},objectType=Secret,sourceKey=root",
          )
          ∷ [],
    )
    ∷ (
      kind "pxc.percona.com" "v1-9-0" "PerconaXtraDBCluster",
      ("service.binding/type", "mysql")
          ∷ ("service.binding/provider", "percona")
          ∷ ("service.binding/database", "mysql")
          ∷ ("service.binding", "path={.spec.secretsName},objectType=Secret")
          ∷ ("service.binding/host", "path={.status.host}")
          ∷ ("service.binding/port", "3306")
          ∷ ("service.binding/username", "root")
          ∷ (
            "service.binding/password", "path={.spec.secretsName},objectType=Secret,sourceKey=root",
          )
          ∷ [],
    )
    ∷ (
      kind "pxc.percona.com" "v1-10-0" "PerconaXtraDBCluster",
      ("service.binding/type", "mysql")
          ∷ ("service.binding/provider", "percona")
          ∷ ("service.binding/database", "mysql")
          ∷ ("service.binding", "path={.spec.secretsName},objectType=Secret")
          ∷ ("service.binding/host", "path={.status.host}")
          ∷ ("service.binding/port", "3306")
          ∷ ("service.binding/username", "root")
          ∷ (
            "service.binding/password", "path={.spec.secretsName},objectType=Secret,sourceKey=root",
          )
          ∷ [],
    )
    ∷ (
      kind "psmdb.percona.com" "v1-9-0" "PerconaServerMongoDB",
      ("service.binding/type", "mongodb")
          ∷ ("service.binding/provider", "percona")
          ∷ ("service.binding", "path={.spec.secrets.users},objectType=Secret")
          ∷ (
            "service.binding/username",
            "path={.spec.secrets.users},objectType=Secret,sourceKey=MONGODB_USER_ADMIN_USER",
          )
          ∷ (
            "service.binding/password",
            "path={.spec.secrets.users},objectType=Secret,sourceKey=MONGODB_USER_ADMIN_PASSWORD",
          )
          ∷ ("service.binding/host", "path={.status.host}")
          ∷ [],
    )
    ∷ (
      kind "psmdb.percona.com" "v1-10-0" "PerconaServerMongoDB",
      ("service.binding/type", "mongodb")
          ∷ ("service.binding/provider", "percona")
          ∷ ("service.binding", "path={.spec.secrets.users},objectType=Secret")
          ∷ (
            "service.binding/username",
            "path={.spec.secrets.users},objectType=Secret,sourceKey=MONGODB_USER_ADMIN_USER",
          )
          ∷ (
            "service.binding/password",
            "path={.spec.secrets.users},objectType=Secret,sourceKey=MONGODB_USER_ADMIN_PASSWORD",
          )
          ∷ ("service.binding/host", "path={.status.host}")
          ∷ [],
    )
    ∷ (
      kind "psmdb.percona.com" "v1" "PerconaServerMongoDB",
      ("service.binding/type", "mongodb")
          ∷ ("service.binding/provider", "percona")
          ∷ ("service.binding", "path={.spec.secrets.users},objectType=Secret")
          ∷ (
            "service.binding/username",
            "path={.spec.secrets.users},objectType=Secret,sourceKey=MONGODB_USER_ADMIN_USER",
          )
          ∷ (
            "service.binding/password",
            "path={.spec.secrets.users},objectType=Secret,sourceKey=MONGODB_USER_ADMIN_PASSWORD",
          )
          ∷ ("service.binding/host", "path={.status.host}")
          ∷ [],
    )
    ∷ (
      kind "postgresql.k8s.enterprisedb.io" "v1" "Cluster",
      ("service.binding/type", "postgresql")
          ∷ ("service.binding/host", "path={.status.writeService}")
          ∷ ("service.binding/provider", "enterprisedb")
          ∷ (
            "service.binding",
            "path={.metadata.name}-{.spec.bootstrap.initdb.owner},objectType=Secret",
          )
          ∷ ("service.binding/database", "path={.spec.bootstrap.initdb.database}")
          ∷ [],
    )
    ∷ (
      kind "rabbitmq.com" "v1beta1" "RabbitmqCluster",
      ("servicebinding.io/provisioned-service", "true") ∷ [],
    )
    ∷ []

-- `GetAnnotations`
unfoldable pub get_annotations : GroupVersionKind → Registry → Option (Dict String)
get_annotations gvk [] = none
get_annotations gvk ((k, anns) ∷ rest) =
    let later = get_annotations gvk rest in if same_kind k gvk then some anns else later

-- `Register`
unfoldable pub register : GroupVersionKind → Dict String → Registry → Registry
register gvk anns [] = (gvk, anns) ∷ []
register gvk anns ((k, held) ∷ rest) =
    if same_kind k gvk then (k, anns) ∷ rest else (k, held) ∷ register gvk anns rest
