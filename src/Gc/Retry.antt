-- ===== src/Gc/Retry.antt =====
-- collect when statements fail half-way through a cluster.
use kube_graphql.Common.{
  Bool-cases, Option-cases, Text, text_eq, text_eq_iff, text_ne, ◌≡◌, refl, ◌∙◌, ◌⊎◌, inl, inr,
  List, [], ◌∷◌,
}
use kube_graphql.Api.{Time}
use kube_graphql.Gc.{is_expired, Tables, remove_cluster, collect_clusters, collect}
use kube_graphql.Gc.Safety.{Untouched, remove_cluster-Untouched}
use kube_graphql.Store.{
  ClusterModel, Db, delete_resource_types_for_cluster, list_stale_clusters, delete_cluster,
  delete_objects_for_cluster,
}
use kube_graphql.Store.Rows.{
  objects_of, resource_types_of, clusters_of, objects-delete_self, resource_types-delete_self,
}

module _ (db : Db) (n : Text) (before : List ClusterModel) where
  -- The record of the cluster n is as before, or nothing that belongs to it is left.
  abbrev pub IsRetryable : Tables db → Type 0
  IsRetryable s =
      (clusters_of n (db.clusters.rows s.clusters) ≡ before)
      ⊎ ((objects_of n (db.objects.rows s.objects) ≡ [])
          × (resource_types_of n (db.resource_types.rows s.resource_types) ≡ []))

  Untouched-IsRetryable : (s t : Tables db) → Untouched db n s t → IsRetryable s → IsRetryable t
  Untouched-IsRetryable s t u (inl h) = inl (u.clusters ∙ h)
  Untouched-IsRetryable s t u (inr h) = inr (u.objects ∙ h.0, u.resource_types ∙ h.1)

  remove_cluster-IsRetryable_self :
      (s : Tables db) → IsRetryable s → IsRetryable (remove_cluster db n s)
  unfolding remove_cluster
  remove_cluster-IsRetryable_self s h =
      elim (Option-cases (delete_objects_for_cluster db n s.objects)) [
        | inl e ↦ rw (e, remove_cluster) h
        | inr (o, e) ↦
            let ho = objects-delete_self db n s.objects o e in
            elim (Option-cases (delete_resource_types_for_cluster db n s.resource_types)) [
              | inl e' ↦
                  rw (e, e', remove_cluster)
                    (elim h [ inl same ↦ inl same | inr gone ↦ inr (ho, gone.1) ])
              | inr (r, e') ↦
                  let hr = resource_types-delete_self db n s.resource_types r e' in
                  elim (Option-cases (delete_cluster db n s.clusters)) [
                    | inl e'' ↦ rw (e, e', e'', remove_cluster) (inr (ho, hr))
                    | inr (c, e'') ↦ rw (e, e', e'', remove_cluster) (inr (ho, hr))
                  ]
            ]
      ]

  remove_cluster-IsRetryable :
      (m : Text) (s : Tables db) → IsRetryable s → IsRetryable (remove_cluster db m s)
  remove_cluster-IsRetryable m s h = elim (Bool-cases (text_eq m n)) [
    | inl e ↦ rw ((text_eq_iff m n).0 e) (remove_cluster-IsRetryable_self s h)
    | inr e ↦ Untouched-IsRetryable s _ (remove_cluster-Untouched db n m s (text_ne m n e)) h
  ]

  collect_clusters-IsRetryable :
      (now : Time) (cs : List ClusterModel) (s : Tables db)
      → IsRetryable s
      → IsRetryable (collect_clusters db now cs s)
  unfolding collect_clusters
  collect_clusters-IsRetryable now [] s h = h
  collect_clusters-IsRetryable now (c ∷ cs) s h = elim (Bool-cases (is_expired now c)) [
    | inl e ↦
        rw (e, collect_clusters)
          (collect_clusters-IsRetryable now cs (remove_cluster db c.name s)
            (remove_cluster-IsRetryable c.name s h))
    | inr e ↦ rw (e, collect_clusters) (collect_clusters-IsRetryable now cs s h)
  ]

-- Whatever statements fail, a collection leaves the record of a cluster as it was, or it leaves no
-- object and no resource type of that cluster: a record never goes before what belongs to it.
pub collect-IsRetryable :
    (db : Db) (n : Text) (now : Time) (s : Tables db)
    → IsRetryable db n (clusters_of n (db.clusters.rows s.clusters)) (collect db now s)
unfolding collect
collect-IsRetryable db n now s = elim (Option-cases (list_stale_clusters db now s.clusters)) [
  | inl e ↦ rw (e, collect) (inl refl)
  | inr (cs, e) ↦
      rw (e, collect)
        (collect_clusters-IsRetryable db n (clusters_of n (db.clusters.rows s.clusters)) now cs s
          (inl refl))
]
