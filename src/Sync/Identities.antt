-- ===== src/Sync/Identities.antt =====
-- internal/sync/kcp.go: the identities of resources that kcp's APIExports provide. Logging is left
-- out.
pub mod Names
pub mod Lookup
use kube_graphql.Common.{
  ◌==◌, if◌then◌else◌, lookup, ◌>>=◌, Text, codes, text_eq, is_empty, cons_head, ℕ, zero, suc, Bool,
  not, ◌&&◌, Option, none, some, List, [], ◌∷◌,
}
use kube_graphql.Store.{ResourceTypeModel, Db, ResourceTypes}
use kube_graphql.Sync.Discovery.{DiscoveredResource}

-- A value of type `interface{}`, as far as the code tells them apart.
pub data AnyValue : Type 0 where
  string_value : Text → AnyValue
  store_value other_value : AnyValue

-- An APIExport, by its status.identityHash and spec.latestResourceSchemas; `none` if the field is
-- not found or not of its type.
pub record ApiExport : Type 0 where
  pub identity_hash : Option Text
  pub latest_resource_schemas : Option (List AnyValue)

-- `strings.SplitN` at a separator of one byte: at most n + 1 parts, the last with the rest.
unfoldable pub split_n : ℕ → Text → ℕ → List Text
split_n zero s sep = s ∷ []
split_n (suc n) [] sep = [] ∷ []
split_n (suc n) (c ∷ s) sep =
    if c == sep then [] ∷ split_n n s sep else cons_head c (split_n (suc n) s sep)

-- The resource and the group of a schema's parts.
unfoldable pub resource_and_group : List Text → Option (Text × Text)
resource_and_group [] = none
resource_and_group (version ∷ []) = none
resource_and_group (version ∷ resource ∷ []) = some (resource, [])
resource_and_group (version ∷ resource ∷ group ∷ rest) = some (resource, group)

-- What a schema's name says of its resource.
unfoldable pub parse_schema_name : Text → Option (Text × Text)
parse_schema_name name = resource_and_group (split_n 2 name b'.')

-- `update` is the statement UPDATE on the resource types, `first` is SELECT with LIMIT 1.
module _ (db : Db)
    (update : (ResourceTypeModel → Bool) → Text → ResourceTypes db → Option (ResourceTypes db))
    (first : (ResourceTypeModel → Bool) → ResourceTypes db → Option ResourceTypeModel)
    (cluster_name : Text) where
  -- `updateResourceTypeIdentity`, and the state; an error changes nothing.
  unfoldable pub update_resource_type_identity :
      AnyValue → Text → Text → Text → ResourceTypes db → ResourceTypes db
  update_resource_type_identity (string_value v) api_group resource identity s = s
  update_resource_type_identity store_value api_group resource identity s =
      elim (update
        (λ r.
          text_eq r.cluster cluster_name
          && (text_eq r.api_group api_group && text_eq r.resource resource))
        identity s) [ none ↦ s | some s' ↦ s' ]
  update_resource_type_identity other_value api_group resource identity s = s

  -- The body of the loop over the schemas: its variable, which shadows the store, is what is passed
  -- on.
  unfoldable pub process_schema : Text → AnyValue → ResourceTypes db → ResourceTypes db
  process_schema identity (string_value name) s = elim (parse_schema_name name) [
    | none ↦ s
    | some (resource, group) ↦
        update_resource_type_identity (string_value name) group resource identity s
  ]
  process_schema identity store_value s = s
  process_schema identity other_value s = s

  unfoldable pub process_schemas : Text → List AnyValue → ResourceTypes db → ResourceTypes db
  process_schemas identity [] s = s
  process_schemas identity (v ∷ vs) s = process_schemas identity vs (process_schema identity v s)

  -- The body of the loop over the exports.
  unfoldable pub process_export : ApiExport → ResourceTypes db → ResourceTypes db
  process_export e s = elim e.identity_hash [
    | none ↦ s
    | some identity ↦
        if is_empty identity
        then s
        else elim e.latest_resource_schemas [ none ↦ s | some vs ↦ process_schemas identity vs s ]
  ]

  unfoldable pub process_exports : List ApiExport → ResourceTypes db → ResourceTypes db
  process_exports [] s = s
  process_exports (e ∷ es) s = process_exports es (process_export e s)

  -- `RunKCPDiscovery`, on what it lists; it never returns an error.
  unfoldable pub run_kcp_discovery : Option (List ApiExport) → ResourceTypes db → ResourceTypes db
  run_kcp_discovery none s = s
  run_kcp_discovery (some exports) s = process_exports exports s

  -- `GetIdentityForResource`: `identity != ''` is among its conditions.
  unfoldable pub get_identity_for_resource : Text → Text → ResourceTypes db → Text
  get_identity_for_resource api_group resource s =
      elim (first
        (λ r.
          text_eq r.cluster cluster_name
          && (text_eq r.api_group api_group
              && (text_eq r.resource resource && not (is_empty r.identity))))
        s) [ none ↦ [] | some rt ↦ rt.identity ]

  -- DiscoveredResourceWithIdentity.
  pub record DiscoveredResourceWithIdentity : Type 0 where
    pub resource : DiscoveredResource
    pub identity : Text

  -- `EnrichWithKCPIdentity`.
  unfoldable pub enrich_with_kcp_identity :
      List DiscoveredResource → ResourceTypes db → List DiscoveredResourceWithIdentity
  enrich_with_kcp_identity [] s = []
  enrich_with_kcp_identity (r ∷ rs) s =
      record { resource = r; identity = get_identity_for_resource r.gvr.group r.gvr.resource s }
      ∷ enrich_with_kcp_identity rs s

-- `ParseKCPRefsAnnotation`: `unmarshal_raw` is json.Unmarshal into a RawMessage.
unfoldable pub parse_kcp_refs_annotation : (Text → Option Text) → List (Text × Text) → Option Text
parse_kcp_refs_annotation unmarshal_raw annotations = do
  val ← lookup (codes "kuery.io/refs") annotations
  if is_empty val then none else unmarshal_raw val
