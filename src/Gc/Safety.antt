-- ===== src/Gc/Safety.antt =====
-- collect and the rows of a cluster that is not due.
use kube_graphql.Common.{
  Bool-cases, Option-cases, All, All-keep, Text, ◌≡◌, refl, ◌∙◌, ◌≢◌, inl, inr, true, List, [], ◌∷◌,
}
use kube_graphql.Api.{Time}
use kube_graphql.Gc.{is_expired, Tables, remove_cluster, collect_clusters, collect}
use kube_graphql.Gc.Expiry.{is_due}
use kube_graphql.Store.{
  ClusterModel, Db, delete_resource_types_for_cluster, list_stale_clusters, delete_cluster,
  delete_objects_for_cluster,
}
use kube_graphql.Store.Rows.{
  objects_of, resource_types_of, clusters_of, objects-delete_other, resource_types-delete_other,
  clusters-delete_other,
}

module _ (db : Db) (n : Text) where
  -- The rows of the cluster n are the same in both states.
  pub record Untouched (s s' : Tables db) : Type 0 where
    pub objects :
        objects_of n (db.objects.rows s'.objects) ≡ objects_of n (db.objects.rows s.objects)
    pub resource_types :
        resource_types_of n (db.resource_types.rows s'.resource_types)
        ≡ resource_types_of n (db.resource_types.rows s.resource_types)
    pub clusters :
        clusters_of n (db.clusters.rows s'.clusters) ≡ clusters_of n (db.clusters.rows s.clusters)

  pub Untouched-refl : (s : Tables db) → Untouched s s
  Untouched-refl s = record { objects = refl; resource_types = refl; clusters = refl }

  pub Untouched-trans : (s t u : Tables db) → Untouched s t → Untouched t u → Untouched s u
  Untouched-trans s t u h k = record {
    objects = k.objects ∙ h.objects;
    resource_types = k.resource_types ∙ h.resource_types;
    clusters = k.clusters ∙ h.clusters;
  }

  pub remove_cluster-Untouched :
      (m : Text) (s : Tables db) → m ≢ n → Untouched s (remove_cluster db m s)
  unfolding remove_cluster
  remove_cluster-Untouched m s h = elim (Option-cases (delete_objects_for_cluster db m s.objects)) [
    | inl e ↦ rw (e, remove_cluster) (Untouched-refl s)
    | inr (o, e) ↦
        let ho = objects-delete_other db m n s.objects o e h in
        elim (Option-cases (delete_resource_types_for_cluster db m s.resource_types)) [
          | inl e' ↦
              rw (e, e', remove_cluster)
                (record { objects = ho; resource_types = refl; clusters = refl })
          | inr (r, e') ↦
              let hr = resource_types-delete_other db m n s.resource_types r e' h in
              elim (Option-cases (delete_cluster db m s.clusters)) [
                | inl e'' ↦
                    rw (e, e', e'', remove_cluster)
                      (record { objects = ho; resource_types = hr; clusters = refl })
                | inr (c, e'') ↦
                    rw (e, e', e'', remove_cluster)
                      (record {
                        objects = ho;
                        resource_types = hr;
                        clusters = clusters-delete_other db m n s.clusters c e'' h;
                      })
              ]
        ]
  ]

  -- No expired cluster of the list has the name n.
  abbrev pub NotExpired : Time → List ClusterModel → Type 0
  NotExpired now cs = All (λ c. is_expired now c ≡ true → c.name ≢ n) cs

  collect_clusters-Untouched :
      (now : Time) (cs : List ClusterModel) (s : Tables db)
      → NotExpired now cs
      → Untouched s (collect_clusters db now cs s)
  unfolding collect_clusters
  collect_clusters-Untouched now [] s h = Untouched-refl s
  collect_clusters-Untouched now (c ∷ cs) s h = elim (Bool-cases (is_expired now c)) [
    | inl e ↦ rw e (
        Untouched-trans s (remove_cluster db c.name s) _ (remove_cluster-Untouched c.name s (h.0 e))
          (collect_clusters-Untouched now cs (remove_cluster db c.name s) h.1))
    | inr e ↦ rw e (collect_clusters-Untouched now cs s h.1)
  ]

  -- A collection leaves the objects, the resource types and the record of a cluster as they are,
  -- whatever statements fail, if no record of that name is stale and past its TTL.
  pub collect-Untouched :
      (now : Time) (s : Tables db)
      → All (λ c. is_due now c ≡ true → c.name ≢ n) (db.clusters.rows s.clusters)
      → Untouched s (collect db now s)
  unfolding collect list_stale_clusters is_due
  collect-Untouched now s h = elim (Option-cases (list_stale_clusters db now s.clusters)) [
    | inl e ↦ rw (e, collect) (Untouched-refl s)
    | inr (cs, e) ↦
        rw (e, collect)
          (collect_clusters-Untouched now cs s (
            rw (db.clusters.rows-select _ s.clusters cs e) (
              All-keep (λ c. is_due now c ≡ true → c.name ≢ n)
                (λ c. is_expired now c ≡ true → c.name ≢ n) _ (db.clusters.rows s.clusters)
                (λ c stale due expired. due (rw (stale, expired) refl)) h)))
  ]
