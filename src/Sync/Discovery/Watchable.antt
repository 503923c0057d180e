-- ===== src/Sync/Discovery/Watchable.antt =====
-- The resources that RunDiscovery returns.
use mathlib.Core.Option.{some-injective}
use mathlib.Core.Path.{subst}
use kube_graphql.Common.{
  ◌==◌, Bool-cases, Option-cases, length, All, All-append, Text, codes, ◌≡◌, inl, inr, Bool, false,
  ◌&&◌, ◌||◌, Option, none, some, List, [], ◌∷◌, arith,
}
use kube_graphql.Store.{Db, ResourceTypes, upsert_resource_type, delete_resource_types_for_cluster}
use kube_graphql.Sync.Discovery.{
  Blacklist, is_blacklisted, ApiResource, ApiResourceList, DiscoveredResource, has_verbs, has_slash,
  resource_type_of, watch, discover_resources, discover_lists, run_discovery,
}

-- A resource that may be watched: none of the blacklist, and no subresource.
pub record IsWatchable (bl : Blacklist) (r : DiscoveredResource) : Type 0 where
  pub allowed :
      is_blacklisted bl (record { group = r.gvr.group; resource = r.gvr.resource }) ≡ false
  pub whole : has_slash r.gvr.resource ≡ false

module _ (db : Db) (marshal_strings : List Text → Text)
    (parse_group_version : Text → Option (Text × Text)) (bl : Blacklist) (cluster_name : Text) where
  watch-IsWatchable :
      (group version : Text) (ar : ApiResource) (ws : List DiscoveredResource)
      → (has_slash ar.name || is_blacklisted bl (record { group = group; resource = ar.name }))
        ≡ false
      → All (IsWatchable bl) ws
      → All
          (IsWatchable bl)
          (watch db marshal_strings parse_group_version bl cluster_name group version ar ws)
  unfolding watch
  watch-IsWatchable group version ar ws passed h =
      elim (Bool-cases (has_verbs ar.verbs (codes "list" ∷ codes "watch" ∷ []))) [
        | inl e ↦ rw e (
            All-append (IsWatchable bl) ws _ h
              (record { allowed = ground (arith, passed); whole = ground (arith, passed) }, tt))
        | inr e ↦ rw e h
      ]

  discover_resources-IsWatchable :
      (group version : Text) (all ars : List ApiResource) (ws : List DiscoveredResource)
      (s : ResourceTypes db)
      → All (IsWatchable bl) ws
      → All
          (IsWatchable bl)
          (discover_resources db marshal_strings parse_group_version bl cluster_name group version
            all ars ws s).0
  unfolding discover_resources
  discover_resources-IsWatchable group version all [] ws s h = h
  discover_resources-IsWatchable group version all (ar ∷ ars) ws s h =
      let skip = discover_resources-IsWatchable group version all ars ws s h in
      let rt =
        resource_type_of db marshal_strings parse_group_version bl cluster_name group version all
          ar in
      elim (Bool-cases
        (has_slash ar.name || is_blacklisted bl (record { group = group; resource = ar.name }))) [
          | inl e ↦ rw (e, discover_resources) skip
          | inr e ↦ elim (Option-cases (upsert_resource_type db rt s)) [
            | inl e' ↦ rw (e, e', discover_resources) skip
            | inr (s', e') ↦
                rw (e, e', discover_resources)
                  (discover_resources-IsWatchable group version all ars _ s'
                    (watch-IsWatchable group version ar ws e h))
          ]
        ]

  discover_lists-IsWatchable :
      (ls : List (Option ApiResourceList)) (ws : List DiscoveredResource) (s : ResourceTypes db)
      → All (IsWatchable bl) ws
      → All
          (IsWatchable bl)
          (discover_lists db marshal_strings parse_group_version bl cluster_name ls ws s).0
  unfolding discover_lists
  discover_lists-IsWatchable [] ws s h = h
  discover_lists-IsWatchable (none ∷ ls) ws s h = discover_lists-IsWatchable ls ws s h
  discover_lists-IsWatchable (some l ∷ ls) ws s h =
      elim (Option-cases (parse_group_version l.group_version)) [
        | inl e ↦ rw (e, discover_lists) (discover_lists-IsWatchable ls ws s h)
        | inr (gv, e) ↦
            rw (e, discover_lists)
              (discover_lists-IsWatchable ls _ _
                (discover_resources-IsWatchable gv.0 gv.1 l.api_resources l.api_resources ws s h))
      ]

  -- Whatever the server lists and whatever statements fail, discovery watches no resource of the
  -- blacklist and no subresource.
  pub run_discovery-IsWatchable :
      (lists : List (Option ApiResourceList)) (failed : Bool) (s : ResourceTypes db)
      (ws : List DiscoveredResource)
      → (run_discovery db marshal_strings parse_group_version bl cluster_name lists failed s).0
        ≡ some ws
      → All (IsWatchable bl) ws
  unfolding run_discovery
  run_discovery-IsWatchable lists failed s ws found =
      elim (Bool-cases (failed && length lists == 0)) [
        | inl e ↦ cc (rw (e, run_discovery) at found)
        | inr e ↦ elim (Option-cases (delete_resource_types_for_cluster db cluster_name s)) [
          | inl e' ↦ cc (rw (e, e', run_discovery) at found)
          | inr (s', e') ↦
              subst (All (IsWatchable bl)) (some-injective _ _ (rw (e, e', run_discovery) at found))
                (discover_lists-IsWatchable lists [] s' tt)
        ]
      ]
