-- ===== src/Sync/Discovery/Isolation.antt =====
-- Discovery of one cluster and the resource types of another.
use kube_graphql.Common.{
  ◌==◌, Bool-cases, Option-cases, length, Text, text_eq, text_eq_iff, ne_text, ◌≡◌, refl, sym, ap,
  ◌∙◌, ◌≢◌, inl, inr, Bool, ◌&&◌, ◌||◌, Option, none, some, List, [], ◌∷◌, arith,
}
use kube_graphql.Store.{
  ResourceTypeModel, same_resource_type, assign_resource_type, Db, ResourceTypes,
  upsert_resource_type, delete_resource_types_for_cluster,
}
use kube_graphql.Store.Rows.{resource_types_of, resource_types-delete_other}
use kube_graphql.Store.Select.{Respects, keep-upsert_other}
use kube_graphql.Sync.Discovery.{
  Blacklist, is_blacklisted, ApiResource, ApiResourceList, DiscoveredResource, has_slash,
  resource_type_of, discover_resources, discover_lists, run_discovery,
}

module _ (n : Text) where
  resource_type-Respects :
      (m : ResourceTypeModel)
      → Respects (λ r. text_eq r.cluster n) same_resource_type assign_resource_type m
  unfolding same_resource_type assign_resource_type
  resource_type-Respects m r hit =
      let same : m.cluster ≡ r.cluster =
        (text_eq_iff m.cluster r.cluster).0 (ground (arith, hit)) in
      let selected = ap (λ c. text_eq c n) (sym same) in (selected, selected)

  module _ (db : Db) (marshal_strings : List Text → Text)
      (parse_group_version : Text → Option (Text × Text)) (bl : Blacklist) (cluster_name : Text)
      (apart : cluster_name ≢ n) where
    -- The rows of the cluster n are the same.
    abbrev pub SameTypes : ResourceTypes db → ResourceTypes db → Type 0
    SameTypes s s' =
        resource_types_of n (db.resource_types.rows s')
        ≡ resource_types_of n (db.resource_types.rows s)

    discover_resources-SameTypes :
        (group version : Text) (all ars : List ApiResource) (watchable : List DiscoveredResource)
        (s : ResourceTypes db)
        → SameTypes s
            (discover_resources db marshal_strings parse_group_version bl cluster_name group version
              all ars watchable s).1
    unfolding discover_resources upsert_resource_type resource_type_of
    discover_resources-SameTypes group version all [] watchable s = refl
    discover_resources-SameTypes group version all (ar ∷ ars) watchable s =
        elim (Bool-cases
          (has_slash ar.name || is_blacklisted bl (record { group = group; resource = ar.name }))) [
            | inl e ↦
                rw (discover_resources, e)
                  (discover_resources-SameTypes group version all ars watchable s)
            | inr e ↦
                let model =
                  resource_type_of db marshal_strings parse_group_version bl cluster_name group
                    version all ar in
                elim (Option-cases (upsert_resource_type db model s)) [
                  | inl f ↦
                      rw (discover_resources, e, f)
                        (discover_resources-SameTypes group version all ars watchable s)
                  | inr (s', f) ↦
                      let kept : SameTypes s s' =
                        rw
                          (db.resource_types.rows-insert same_resource_type assign_resource_type
                            model s s' f)
                          (keep-upsert_other _ same_resource_type assign_resource_type model
                            (resource_type-Respects model) (ne_text cluster_name n apart)
                            (db.resource_types.rows s)) in
                      rw (discover_resources, e, f)
                        (discover_resources-SameTypes group version all ars _ s' ∙ kept)
                ]
          ]

    discover_lists-SameTypes :
        (ls : List (Option ApiResourceList)) (watchable : List DiscoveredResource)
        (s : ResourceTypes db)
        → SameTypes s
            (discover_lists db marshal_strings parse_group_version bl cluster_name ls watchable s).1
    unfolding discover_lists
    discover_lists-SameTypes [] watchable s = refl
    discover_lists-SameTypes (none ∷ ls) watchable s = discover_lists-SameTypes ls watchable s
    discover_lists-SameTypes (some l ∷ ls) watchable s =
        elim (Option-cases (parse_group_version l.group_version)) [
          | inl e ↦ rw (discover_lists, e) (discover_lists-SameTypes ls watchable s)
          | inr ((group, version), e) ↦
              rw (discover_lists, e)
                (discover_lists-SameTypes ls _ _
                  ∙ discover_resources-SameTypes group version l.api_resources l.api_resources
                      watchable s)
        ]

    -- Discovery of a cluster leaves the resource types of another as they are.
    pub run_discovery-SameTypes :
        (lists : List (Option ApiResourceList)) (failed_too : Bool) (s : ResourceTypes db)
        → SameTypes s
            (run_discovery db marshal_strings parse_group_version bl cluster_name lists failed_too
              s).1
    unfolding run_discovery
    run_discovery-SameTypes lists failed_too s =
        elim (Bool-cases (failed_too && length lists == 0)) [
          | inl e ↦ rw (run_discovery, e) refl
          | inr e ↦ elim (Option-cases (delete_resource_types_for_cluster db cluster_name s)) [
            | inl f ↦ rw (run_discovery, e, f) refl
            | inr (s', f) ↦
                rw (run_discovery, e, f)
                  (discover_lists-SameTypes lists [] s'
                    ∙ resource_types-delete_other db cluster_name n s s' f apart)
          ]
        ]
