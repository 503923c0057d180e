-- ===== src/Gc/Progress.antt =====
-- collect on a store whose statements succeed.
use mathlib.Core.Path.{subst}
use kube_graphql.Common.{
  Bool-cases, Option-cases, All, All_of_keep, Text, text_eq, text_eq_iff, text_ne, ◌≡◌, refl, ◌∙◌,
  ◌≢◌, inl, inr, true, none, List, [], ◌∷◌,
}
use kube_graphql.Api.{Time}
use kube_graphql.Gc.{is_expired, Tables, remove_cluster, collect_clusters, collect}
use kube_graphql.Gc.Expiry.{is_due}
use kube_graphql.Gc.Safety.{Untouched, remove_cluster-Untouched}
use kube_graphql.Store.{
  ClusterModel, Db, Objects, ResourceTypes, Clusters, delete_resource_types_for_cluster,
  list_stale_clusters, delete_cluster, delete_objects_for_cluster,
}
use kube_graphql.Store.Rows.{
  objects_of, resource_types_of, clusters_of, objects-delete_self, resource_types-delete_self,
  clusters-delete_self,
}

-- No statement of the collector returns an error.
pub record IsReliable (db : Db) : Type 0 where
  pub objects : (m : Text) (s : Objects db) → delete_objects_for_cluster db m s ≢ none
  pub resource_types :
      (m : Text) (s : ResourceTypes db) → delete_resource_types_for_cluster db m s ≢ none
  pub clusters : (m : Text) (s : Clusters db) → delete_cluster db m s ≢ none
  pub list : (now : Time) (s : Clusters db) → list_stale_clusters db now s ≢ none

module _ (db : Db) (n : Text) where
  -- Nothing of the cluster n is left.
  pub record Gone (s : Tables db) : Type 0 where
    pub objects : objects_of n (db.objects.rows s.objects) ≡ []
    pub resource_types : resource_types_of n (db.resource_types.rows s.resource_types) ≡ []
    pub clusters : clusters_of n (db.clusters.rows s.clusters) ≡ []

  Untouched-Gone : (s t : Tables db) → Untouched db n s t → Gone s → Gone t
  Untouched-Gone s t u g = record {
    objects = u.objects ∙ g.objects;
    resource_types = u.resource_types ∙ g.resource_types;
    clusters = u.clusters ∙ g.clusters;
  }

  module _ (reliable : IsReliable db) where
    remove_cluster-Gone_self : (s : Tables db) → Gone (remove_cluster db n s)
    unfolding remove_cluster
    remove_cluster-Gone_self s = elim (Option-cases (delete_objects_for_cluster db n s.objects)) [
      | inl e ↦ absurd (reliable.objects n s.objects e)
      | inr (o, e) ↦ elim (Option-cases (delete_resource_types_for_cluster db n s.resource_types)) [
        | inl e' ↦ absurd (reliable.resource_types n s.resource_types e')
        | inr (r, e') ↦ elim (Option-cases (delete_cluster db n s.clusters)) [
          | inl e'' ↦ absurd (reliable.clusters n s.clusters e'')
          | inr (c, e'') ↦
              rw (e, e', e'', remove_cluster)
                (record {
                  objects = objects-delete_self db n s.objects o e;
                  resource_types = resource_types-delete_self db n s.resource_types r e';
                  clusters = clusters-delete_self db n s.clusters c e'';
                })
        ]
      ]
    ]

    remove_cluster-Gone : (m : Text) (s : Tables db) → Gone s → Gone (remove_cluster db m s)
    remove_cluster-Gone m s g = elim (Bool-cases (text_eq m n)) [
      | inl e ↦ rw ((text_eq_iff m n).0 e) (remove_cluster-Gone_self s)
      | inr e ↦ Untouched-Gone s _ (remove_cluster-Untouched db n m s (text_ne m n e)) g
    ]

    collect_clusters-Gone :
        (now : Time) (cs : List ClusterModel) (s : Tables db)
        → Gone s
        → Gone (collect_clusters db now cs s)
    unfolding collect_clusters
    collect_clusters-Gone now [] s g = g
    collect_clusters-Gone now (c ∷ cs) s g = elim (Bool-cases (is_expired now c)) [
      | inl e ↦ rw e (
          collect_clusters-Gone now cs (remove_cluster db c.name s)
            (remove_cluster-Gone c.name s g))
      | inr e ↦ rw e (collect_clusters-Gone now cs s g)
    ]

module _ (db : Db) (reliable : IsReliable db) where
  collect_clusters_removes :
      (now : Time) (cs : List ClusterModel) (s t : Tables db)
      → collect_clusters db now cs s ≡ t
      → All (λ c. is_expired now c ≡ true → Gone db c.name t) cs
  unfolding collect_clusters
  collect_clusters_removes now [] s t q = tt
  collect_clusters_removes now (c ∷ cs) s t q = elim (Bool-cases (is_expired now c)) [
    | inl e ↦
        let s' = remove_cluster db c.name s in
        let q' : collect_clusters db now cs s' ≡ t = rw e at q in
        (
          λ _. subst (Gone db c.name) q' (
              collect_clusters-Gone db c.name reliable now cs s'
                (remove_cluster-Gone_self db c.name reliable s)),
          collect_clusters_removes now cs s' t q',
        )
    | inr e ↦ (λ h. cc, collect_clusters_removes now cs s t (rw e at q))
  ]

  -- If no statement fails, a collection leaves no object, no resource type and no record of any
  -- cluster with a record that is stale and past its TTL.
  pub collect_removes :
      (now : Time) (s : Tables db)
      → All
          (λ c. is_due now c ≡ true → Gone db c.name (collect db now s))
          (db.clusters.rows s.clusters)
  unfolding collect list_stale_clusters is_due
  collect_removes now s = elim (Option-cases (list_stale_clusters db now s.clusters)) [
    | inl e ↦ absurd (reliable.list now s.clusters e)
    | inr (cs, e) ↦
        let t = collect_clusters db now cs s in
        let P : ClusterModel → Type 0 = λ c. is_expired now c ≡ true → Gone db c.name t in
        rw (e, collect)
          (All_of_keep P (λ c. is_due now c ≡ true → Gone db c.name t) _
            (db.clusters.rows s.clusters) (λ c stale gone due. gone (rw stale at due))
            (λ c fresh due. cc (rw fresh at due))
            (subst (All P) (db.clusters.rows-select _ s.clusters cs e)
              (collect_clusters_removes now cs s t refl)))
  ]
