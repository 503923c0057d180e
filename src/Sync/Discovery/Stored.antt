-- ===== src/Sync/Discovery/Stored.antt =====
-- The rows that RunDiscovery leaves in the table of resource types.
use kube_graphql.Common.{
  ◌==◌, Bool-cases, Option-cases, length, keep, some_of, All, All-append, All-weaken, Text, text_eq,
  text_ne, ◌≡◌, refl, inl, inr, Bool, false, not, ◌&&◌, ◌||◌, Option, none, some, List, [], ◌∷◌,
  arith,
}
use kube_graphql.Store.{
  ResourceTypeModel, same_resource_type, assign_resource_type, Db, ResourceTypes,
  upsert_resource_type, delete_resource_types_for_cluster,
}
use kube_graphql.Store.Interface.{assign_all, upsert}
use kube_graphql.Sync.Discovery.{
  Blacklist, is_blacklisted, ApiResource, ApiResourceList, DiscoveredResource, has_slash,
  resource_type_of, discover_resources, discover_lists, run_discovery,
}

-- A row of the cluster is of no resource of the blacklist.
abbrev pub IsAllowed : Blacklist → Text → ResourceTypeModel → Type 0
IsAllowed bl cluster r =
    r.cluster ≡ cluster
    → is_blacklisted bl (record { group = r.api_group; resource = r.resource }) ≡ false

-- What discovery leaves of a cluster: such rows, without an identity.
abbrev pub IsDiscovered : Blacklist → Text → ResourceTypeModel → Type 0
IsDiscovered bl cluster r =
    r.cluster ≡ cluster
    → (is_blacklisted bl (record { group = r.api_group; resource = r.resource }) ≡ false)
      × (r.identity ≡ [])

All-assign_all :
    (P : ResourceTypeModel → Type 0) (new : ResourceTypeModel) (rs : List ResourceTypeModel)
    → ((r : ResourceTypeModel) → P r → P (assign_resource_type new r))
    → All P rs
    → All P (assign_all same_resource_type assign_resource_type new rs)
unfolding assign_all
All-assign_all P new [] f h = tt
All-assign_all P new (r ∷ rs) f h = elim (Bool-cases (same_resource_type new r)) [
  | inl e ↦ rw e (f r h.0, All-assign_all P new rs f h.1)
  | inr e ↦ rw e (h.0, All-assign_all P new rs f h.1)
]

All-upsert :
    (P : ResourceTypeModel → Type 0) (new : ResourceTypeModel) (rs : List ResourceTypeModel)
    → ((r : ResourceTypeModel) → P r → P (assign_resource_type new r))
    → P new
    → All P rs
    → All P (upsert same_resource_type assign_resource_type new rs)
unfolding upsert
All-upsert P new rs f p h = elim (Bool-cases (some_of (same_resource_type new) rs)) [
  | inl e ↦ rw e (All-assign_all P new rs f h)
  | inr e ↦ rw e (All-append P rs (new ∷ []) h (p, tt))
]

assign-IsDiscovered :
    (bl : Blacklist) (cluster : Text) (new r : ResourceTypeModel)
    → IsDiscovered bl cluster r
    → IsDiscovered bl cluster (assign_resource_type new r)
unfolding assign_resource_type
assign-IsDiscovered bl cluster new r h = h

kept-IsDiscovered :
    (bl : Blacklist) (cluster : Text) (rs : List ResourceTypeModel)
    → All (IsDiscovered bl cluster) (keep (λ r. not (text_eq r.cluster cluster)) rs)
kept-IsDiscovered bl cluster [] = tt
kept-IsDiscovered bl cluster (r ∷ rs) = elim (Bool-cases (text_eq r.cluster cluster)) [
  | inl e ↦ rw e (kept-IsDiscovered bl cluster rs)
  | inr e ↦
      rw e (λ same. absurd (text_ne r.cluster cluster e same), kept-IsDiscovered bl cluster rs)
]

module _ (db : Db) (marshal_strings : List Text → Text)
    (parse_group_version : Text → Option (Text × Text)) (bl : Blacklist) (cluster_name : Text) where
  -- The rows of a state.
  abbrev AllDiscovered : ResourceTypes db → Type 0
  AllDiscovered s = All (IsDiscovered bl cluster_name) (db.resource_types.rows s)

  upsert-AllDiscovered :
      (rt : ResourceTypeModel) (s s' : ResourceTypes db)
      → IsDiscovered bl cluster_name rt
      → AllDiscovered s
      → upsert_resource_type db rt s ≡ some s'
      → AllDiscovered s'
  unfolding upsert_resource_type
  upsert-AllDiscovered rt s s' p h e =
      rw (db.resource_types.rows-insert same_resource_type assign_resource_type rt s s' e) (
        All-upsert (IsDiscovered bl cluster_name) rt (db.resource_types.rows s)
          (λ r. assign-IsDiscovered bl cluster_name rt r) p h)

  discover_resources-AllDiscovered :
      (group version : Text) (all ars : List ApiResource) (ws : List DiscoveredResource)
      (s : ResourceTypes db)
      → AllDiscovered s
      → AllDiscovered
          (discover_resources db marshal_strings parse_group_version bl cluster_name group version
            all ars ws s).1
  unfolding discover_resources
  discover_resources-AllDiscovered group version all [] ws s h = h
  discover_resources-AllDiscovered group version all (ar ∷ ars) ws s h =
      let skip = discover_resources-AllDiscovered group version all ars ws s h in
      let rt =
        resource_type_of db marshal_strings parse_group_version bl cluster_name group version all
          ar in
      elim (Bool-cases
        (has_slash ar.name || is_blacklisted bl (record { group = group; resource = ar.name }))) [
          | inl e ↦ rw (e, discover_resources) skip
          | inr e ↦ elim (Option-cases (upsert_resource_type db rt s)) [
            | inl e' ↦ rw (e, e', discover_resources) skip
            | inr (s', e') ↦
                let allowed : IsDiscovered bl cluster_name rt =
                  λ _. unfold resource_type_of in (ground (arith, e), refl) in
                rw (e, e', discover_resources)
                  (discover_resources-AllDiscovered group version all ars _ s'
                    (upsert-AllDiscovered rt s s' allowed h e'))
          ]
        ]

  discover_lists-AllDiscovered :
      (ls : List (Option ApiResourceList)) (ws : List DiscoveredResource) (s : ResourceTypes db)
      → AllDiscovered s
      → AllDiscovered
          (discover_lists db marshal_strings parse_group_version bl cluster_name ls ws s).1
  unfolding discover_lists
  discover_lists-AllDiscovered [] ws s h = h
  discover_lists-AllDiscovered (none ∷ ls) ws s h = discover_lists-AllDiscovered ls ws s h
  discover_lists-AllDiscovered (some l ∷ ls) ws s h =
      elim (Option-cases (parse_group_version l.group_version)) [
        | inl e ↦ rw (e, discover_lists) (discover_lists-AllDiscovered ls ws s h)
        | inr (gv, e) ↦
            rw (e, discover_lists)
              (discover_lists-AllDiscovered ls _ _
                (discover_resources-AllDiscovered gv.0 gv.1 l.api_resources l.api_resources ws s h))
      ]

  pub run_discovery-IsDiscovered :
      (lists : List (Option ApiResourceList)) (failed : Bool) (s : ResourceTypes db)
      (ws : List DiscoveredResource)
      → (run_discovery db marshal_strings parse_group_version bl cluster_name lists failed s).0
        ≡ some ws
      → All (IsDiscovered bl cluster_name) (
          db.resource_types.rows
            (run_discovery db marshal_strings parse_group_version bl cluster_name lists failed s).1)
  unfolding run_discovery delete_resource_types_for_cluster
  run_discovery-IsDiscovered lists failed s ws found =
      elim (Bool-cases (failed && length lists == 0)) [
        | inl e ↦ cc (rw (e, run_discovery) at found)
        | inr e ↦ elim (Option-cases (delete_resource_types_for_cluster db cluster_name s)) [
          | inl e' ↦ cc (rw (e, e', run_discovery) at found)
          | inr (s', e') ↦
              rw (e, e', run_discovery)
                (discover_lists-AllDiscovered lists [] s' (
                  rw (db.resource_types.rows-delete (λ r. text_eq r.cluster cluster_name) s s' e')
                    (kept-IsDiscovered bl cluster_name (db.resource_types.rows s))))
        ]
      ]

  -- After a discovery that returns resources, the table holds no row of the cluster for a resource
  -- of the blacklist, whatever it held before and whatever statements failed.
  pub run_discovery-IsAllowed :
      (lists : List (Option ApiResourceList)) (failed : Bool) (s : ResourceTypes db)
      (ws : List DiscoveredResource)
      → (run_discovery db marshal_strings parse_group_version bl cluster_name lists failed s).0
        ≡ some ws
      → All (IsAllowed bl cluster_name) (
          db.resource_types.rows
            (run_discovery db marshal_strings parse_group_version bl cluster_name lists failed s).1)
  run_discovery-IsAllowed lists failed s ws found =
      All-weaken (IsDiscovered bl cluster_name) (IsAllowed bl cluster_name) _
        (λ r d same. (d same).0) (run_discovery-IsDiscovered lists failed s ws found)
