-- ===== src/Sync/Identities/Lookup.antt =====
-- RunKCPDiscovery and EnrichWithKCPIdentity: the identities that are stored and found.
use kube_graphql.Common.{
  Bool-cases, Option-cases, All, Text, text_eq, text_eq_iff, is_empty, ◌≡◌, refl, inl, inr, Bool,
  true, not, ◌&&◌, Option, none, some, List, [], ◌∷◌, arith,
}
use kube_graphql.Store.{ResourceTypeModel, Db, ResourceTypes}
use kube_graphql.Sync.Discovery.{Blacklist, ApiResourceList, DiscoveredResource, run_discovery}
use kube_graphql.Sync.Discovery.Stored.{IsDiscovered, run_discovery-IsDiscovered}
use kube_graphql.Sync.Identities.{
  AnyValue, string_value, store_value, other_value, ApiExport, parse_schema_name,
  update_resource_type_identity, process_schema, process_schemas, process_export, process_exports,
  run_kcp_discovery, get_identity_for_resource, DiscoveredResourceWithIdentity,
  enrich_with_kcp_identity,
}

module _ (db : Db)
    (update : (ResourceTypeModel → Bool) → Text → ResourceTypes db → Option (ResourceTypes db))
    (first : (ResourceTypeModel → Bool) → ResourceTypes db → Option ResourceTypeModel)
    (cluster_name : Text) where
  process_schemas_same :
      (identity : Text) (vs : List AnyValue) (s : ResourceTypes db)
      → process_schemas db update first cluster_name identity vs s ≡ s
  unfolding process_schemas process_schema update_resource_type_identity
  process_schemas_same identity [] s = refl
  process_schemas_same identity (string_value name ∷ vs) s =
      elim (Option-cases (parse_schema_name name)) [
        | inl e ↦ rw (e, process_schemas, process_schema) (process_schemas_same identity vs s)
        | inr (p, e) ↦ rw (e, process_schemas, process_schema) (process_schemas_same identity vs s)
      ]
  process_schemas_same identity (store_value ∷ vs) s = process_schemas_same identity vs s
  process_schemas_same identity (other_value ∷ vs) s = process_schemas_same identity vs s

  process_export_same :
      (e : ApiExport) (s : ResourceTypes db) → process_export db update first cluster_name e s ≡ s
  unfolding process_export
  process_export_same e s = elim (Option-cases e.identity_hash) [
    | inl h ↦ rw (h, process_export) refl
    | inr (identity, h) ↦ elim (Bool-cases (is_empty identity)) [
      | inl b ↦ rw (h, b, process_export) refl
      | inr b ↦ elim (Option-cases e.latest_resource_schemas) [
        | inl k ↦ rw (h, b, k, process_export) refl
        | inr (vs, k) ↦ rw (h, b, k, process_export) (process_schemas_same identity vs s)
      ]
    ]
  ]

  process_exports_same :
      (es : List ApiExport) (s : ResourceTypes db)
      → process_exports db update first cluster_name es s ≡ s
  unfolding process_exports
  process_exports_same [] s = refl
  process_exports_same (e ∷ es) s = rw (process_export_same e s) (process_exports_same es s)

  -- RunKCPDiscovery leaves the resource types as they are, whatever exports it lists.
  pub run_kcp_discovery_same :
      (exports : Option (List ApiExport)) (s : ResourceTypes db)
      → run_kcp_discovery db update first cluster_name exports s ≡ s
  unfolding run_kcp_discovery
  run_kcp_discovery_same none s = refl
  run_kcp_discovery_same (some exports) s = process_exports_same exports s

  -- A row that `first` returns is one of the rows and passes the test.
  pub record Finds : Type 1 where
    pub passes :
        (p : ResourceTypeModel → Bool) (s : ResourceTypes db) (r : ResourceTypeModel)
        → first p s ≡ some r
        → p r ≡ true
    pub stored :
        (p : ResourceTypeModel → Bool) (s : ResourceTypes db) (r : ResourceTypeModel)
        → first p s ≡ some r
        → (P : ResourceTypeModel → Type 0) → All P (db.resource_types.rows s)
        → P r

  -- Each resource without an identity.
  unfoldable pub without_identities :
      List DiscoveredResource → List (DiscoveredResourceWithIdentity db update first cluster_name)
  without_identities [] = []
  without_identities (r ∷ rs) = record { resource = r; identity = [] } ∷ without_identities rs

  module _ (finds : Finds) (bl : Blacklist) where
    get_identity-nil :
        (api_group resource : Text) (s : ResourceTypes db)
        → All (IsDiscovered bl cluster_name) (db.resource_types.rows s)
        → get_identity_for_resource db update first cluster_name api_group resource s ≡ []
    unfolding get_identity_for_resource
    get_identity-nil api_group resource s h =
        let p : ResourceTypeModel → Bool = λ r.
          text_eq r.cluster cluster_name
          && (text_eq r.api_group api_group
              && (text_eq r.resource resource && not (is_empty r.identity))) in
        elim (Option-cases (first p s)) [
          | inl e ↦ rw (e, get_identity_for_resource) refl
          | inr (rt, e) ↦
              let found = finds.passes p s rt e in
              let same : rt.cluster ≡ cluster_name =
                ground (arith, found, text_eq_iff rt.cluster cluster_name) in
              rw (e, get_identity_for_resource)
                (finds.stored p s rt e (IsDiscovered bl cluster_name) h same).1
        ]

    enrich-without_identities :
        (ws : List DiscoveredResource) (s : ResourceTypes db)
        → All (IsDiscovered bl cluster_name) (db.resource_types.rows s)
        → enrich_with_kcp_identity db update first cluster_name ws s ≡ without_identities ws
    unfolding enrich_with_kcp_identity without_identities
    enrich-without_identities [] s h = refl
    enrich-without_identities (r ∷ rs) s h =
        rw (get_identity-nil r.gvr.group r.gvr.resource s h, enrich-without_identities rs s h) refl

    -- After a discovery and a RunKCPDiscovery, no resource of the cluster is enriched with an
    -- identity, whatever exports there are.
    pub enrich-run_kcp_discovery :
        (marshal_strings : List Text → Text) (parse_group_version : Text → Option (Text × Text))
        (lists : List (Option ApiResourceList)) (errs : Bool) (s : ResourceTypes db)
        (ws : List DiscoveredResource) (exports : Option (List ApiExport))
        → (run_discovery db marshal_strings parse_group_version bl cluster_name lists errs s).0
          ≡ some ws
        → enrich_with_kcp_identity db update first cluster_name ws (
            run_kcp_discovery db update first cluster_name exports
              (run_discovery db marshal_strings parse_group_version bl cluster_name lists errs s).1)
          ≡ without_identities ws
    enrich-run_kcp_discovery marshal_strings parse_group_version lists errs s ws exports found =
        rw
          (run_kcp_discovery_same exports
            (run_discovery db marshal_strings parse_group_version bl cluster_name lists errs s).1)
          (enrich-without_identities ws _ (
            run_discovery-IsDiscovered db marshal_strings parse_group_version bl cluster_name lists
              errs s ws found))
