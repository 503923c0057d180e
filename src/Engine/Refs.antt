-- ===== src/Engine/Refs.antt =====
-- internal/engine/refs.go: the registry of the fields by which objects name other objects, and the
-- subqueries for those names.
pub mod Registry
pub mod Placeholders
use kube_graphql.Common.{
  if◌then◌else◌, lookup, insert, or_nil, keep, Text, codes, text_eq, is_empty, concat, ◌&&◌, ◌||◌,
  Option, none, some, List, [], ◌∷◌, ◌++◌, map,
}
use kube_graphql.Engine.Filter.Labels.{is_postgres}

-- RefPath.
pub record RefPath : Type 0 where
  pub source_kind : Text
  pub source_group : Text
  pub target_kind : Text
  pub target_group : Text
  pub pg_path : Text
  pub sqlite_array_path : Text
  pub sqlite_field_path : Text

-- An entry of the table below.
abbrev ref_path : Text → Text → Text → Text → Text → Text → Text → RefPath
ref_path source_kind source_group target_kind target_group pg_path array_path field_path = record {
  source_kind = source_kind;
  source_group = source_group;
  target_kind = target_kind;
  target_group = target_group;
  pg_path = pg_path;
  sqlite_array_path = array_path;
  sqlite_field_path = field_path;
}

abbrev pod_ref : Text → Text → Text → Text → RefPath
pod_ref target_kind pg_path array_path field_path =
    ref_path (codes "Pod") [] target_kind [] pg_path array_path field_path

-- `BuiltinRefPaths`.
unfoldable pub builtin_ref_paths : List RefPath
builtin_ref_paths =
    pod_ref (codes "Secret") (codes "$.spec.volumes[*].secret.secretName") (codes "$.spec.volumes")
      (codes "$.secret.secretName")
    ∷ pod_ref (codes "ConfigMap") (codes "$.spec.volumes[*].configMap.name")
        (codes "$.spec.volumes") (codes "$.configMap.name")
    ∷ pod_ref (codes "PersistentVolumeClaim")
        (codes "$.spec.volumes[*].persistentVolumeClaim.claimName") (codes "$.spec.volumes")
        (codes "$.persistentVolumeClaim.claimName")
    ∷ pod_ref (codes "ServiceAccount") (codes "$.spec.serviceAccountName") []
        (codes "$.spec.serviceAccountName")
    ∷ pod_ref (codes "Secret") (codes "$.spec.imagePullSecrets[*].name")
        (codes "$.spec.imagePullSecrets") (codes "$.name")
    ∷ pod_ref (codes "Secret") (codes "$.spec.containers[*].env[*].valueFrom.secretKeyRef.name")
        (codes "$.spec.containers") (codes "NESTED_ENV_SECRET")
    ∷ pod_ref (codes "ConfigMap")
        (codes "$.spec.containers[*].env[*].valueFrom.configMapKeyRef.name")
        (codes "$.spec.containers") (codes "NESTED_ENV_CONFIGMAP")
    ∷ pod_ref (codes "Secret") (codes "$.spec.containers[*].envFrom[*].secretRef.name")
        (codes "$.spec.containers") (codes "NESTED_ENVFROM_SECRET")
    ∷ pod_ref (codes "ConfigMap") (codes "$.spec.containers[*].envFrom[*].configMapRef.name")
        (codes "$.spec.containers") (codes "NESTED_ENVFROM_CONFIGMAP")
    ∷ ref_path (codes "Ingress") (codes "networking.k8s.io") (codes "Service") []
        (codes "$.spec.rules[*].http.paths[*].backend.service.name") (codes "$.spec.rules")
        (codes "NESTED_INGRESS_SERVICE")
    ∷ ref_path (codes "Ingress") (codes "networking.k8s.io") (codes "Secret") []
        (codes "$.spec.tls[*].secretName") (codes "$.spec.tls") (codes "$.secretName")
    ∷ ref_path (codes "PersistentVolumeClaim") [] (codes "StorageClass") (codes "storage.k8s.io")
        (codes "$.spec.storageClassName") [] (codes "$.spec.storageClassName")
    ∷ ref_path (codes "PersistentVolumeClaim") [] (codes "PersistentVolume") []
        (codes "$.spec.volumeName") [] (codes "$.spec.volumeName")
    ∷ ref_path (codes "RoleBinding") (codes "rbac.authorization.k8s.io") (codes "ClusterRole")
        (codes "rbac.authorization.k8s.io") (codes "$.roleRef.name") [] (codes "$.roleRef.name")
    ∷ ref_path (codes "ClusterRoleBinding") (codes "rbac.authorization.k8s.io")
        (codes "ClusterRole") (codes "rbac.authorization.k8s.io") (codes "$.roleRef.name") []
        (codes "$.roleRef.name")
    ∷ []

-- RefPathRegistry: the paths by the key "group/kind" of their source.
abbrev pub RefPathRegistry : Type 0
RefPathRegistry = List (Text × List RefPath)

abbrev pub source_key : Text → Text → Text
source_key group kind = group ++ (codes "/" ++ kind)

-- `r.paths[key]`: nil for a key that is missing.
abbrev pub paths_at : Text → RefPathRegistry → List RefPath
paths_at key r = or_nil (lookup key r)

-- `Register`.
unfoldable pub register : List RefPath → RefPathRegistry → RefPathRegistry
register [] r = r
register (p ∷ ps) r =
    let key = source_key p.source_group p.source_kind in
    register ps (insert key (paths_at key r ++ p ∷ []) r)

-- `NewRefPathRegistry`.
unfoldable pub new_ref_path_registry : RefPathRegistry
new_ref_path_registry = register builtin_ref_paths []

-- `Lookup`.
unfoldable pub lookup_source : Text → Text → RefPathRegistry → List RefPath
lookup_source source_group source_kind r = paths_at (source_key source_group source_kind) r

-- `LookupForTarget`.
unfoldable pub lookup_for_target : Text → Text → Text → Text → RefPathRegistry → List RefPath
lookup_for_target source_group source_kind target_group target_kind r =
    keep
      (λ p.
        text_eq p.target_kind target_kind
        && (is_empty target_group || text_eq p.target_group target_group))
      (lookup_source source_group source_kind r)

-- An entry of the annotation kuery.io/refs.
pub record RefEntry : Type 0 where
  pub path : Text
  pub target_kind : Text
  pub target_group : Text

-- `ParseCRDRefAnnotation`, on the entries that the annotation decodes to, or none.
unfoldable pub parse_crd_ref_annotation :
    Text → Text → Option (List RefEntry) → Option (List RefPath)
parse_crd_ref_annotation source_kind source_group none = none
parse_crd_ref_annotation source_kind source_group (some entries) = some (
    map
      (λ (e : RefEntry).
        ref_path source_kind source_group e.target_kind e.target_group e.path [] e.path)
      entries)

-- The subqueries of `buildSQLiteRefSubquery` for a name in a list within a list: the name's path in
-- an inner element, the outer list, and the inner list with its alias.
unfoldable pub nested_subquery : Text → Text → Text → Text → Text → Text → Text
nested_subquery source_alias name outer outer_alias inner inner_alias = concat (
    codes "(SELECT json_extract("
    ∷ inner_alias
    ∷ codes ".value, '"
    ∷ name
    ∷ codes "') FROM json_each(json_extract("
    ∷ source_alias
    ∷ codes ".object, '"
    ∷ outer
    ∷ codes "')) "
    ∷ outer_alias
    ∷ codes ", json_each(json_extract("
    ∷ outer_alias
    ∷ codes ".value, '"
    ∷ inner
    ∷ codes "')) "
    ∷ inner_alias
    ∷ codes " WHERE json_extract("
    ∷ inner_alias
    ∷ codes ".value, '"
    ∷ name
    ∷ codes "') IS NOT NULL)"
    ∷ [])

-- `buildSQLiteRefSubquery` for a path through a list.
unfoldable pub array_subquery : RefPath → Text → Text
array_subquery p alias =
    if text_eq p.sqlite_field_path (codes "NESTED_ENV_SECRET")
    then nested_subquery alias (codes "$.valueFrom.secretKeyRef.name") (codes "$.spec.containers")
        (codes "cont") (codes "$.env") (codes "env")
    else if text_eq p.sqlite_field_path (codes "NESTED_ENV_CONFIGMAP")
    then nested_subquery alias (codes "$.valueFrom.configMapKeyRef.name")
        (codes "$.spec.containers") (codes "cont") (codes "$.env") (codes "env")
    else if text_eq p.sqlite_field_path (codes "NESTED_ENVFROM_SECRET")
    then nested_subquery alias (codes "$.secretRef.name") (codes "$.spec.containers") (codes "cont")
        (codes "$.envFrom") (codes "ef")
    else if text_eq p.sqlite_field_path (codes "NESTED_ENVFROM_CONFIGMAP")
    then nested_subquery alias (codes "$.configMapRef.name") (codes "$.spec.containers")
        (codes "cont") (codes "$.envFrom") (codes "ef")
    else if text_eq p.sqlite_field_path (codes "NESTED_INGRESS_SERVICE")
    then nested_subquery alias (codes "$.backend.service.name") (codes "$.spec.rules") (codes "r")
        (codes "$.http.paths") (codes "p")
    else concat (
        codes "(SELECT json_extract(je.value, '"
        ∷ p.sqlite_field_path
        ∷ codes "') FROM json_each(json_extract("
        ∷ alias
        ∷ codes ".object, '"
        ∷ p.sqlite_array_path
        ∷ codes "')) je WHERE json_extract(je.value, '"
        ∷ p.sqlite_field_path
        ∷ codes "') IS NOT NULL)"
        ∷ [])

-- `buildSQLiteRefSubquery`.
unfoldable pub build_sqlite_ref_subquery : RefPath → Text → Text
build_sqlite_ref_subquery p alias =
    if is_empty p.sqlite_array_path
    then concat (
        codes "(SELECT json_extract("
        ∷ alias
        ∷ codes ".object, '"
        ∷ p.sqlite_field_path
        ∷ codes "'))"
        ∷ [])
    else array_subquery p alias

-- `BuildRefNameSubquery`.
unfoldable pub build_ref_name_subquery : RefPath → Text → Text → Text
build_ref_name_subquery p alias dialect =
    if is_postgres dialect
    then concat (
        codes "(SELECT v#>>'{}' FROM jsonb_path_query("
        ∷ alias
        ∷ codes ".object, '"
        ∷ p.pg_path
        ∷ codes "') v)"
        ∷ [])
    else build_sqlite_ref_subquery p alias
