-- ===== src/Gc.antt =====
-- internal/gc/gc.go: the collection of clusters that have been stale for longer than their TTL.
-- The loop of Run calls `collect` at each tick; logging and metrics are left out.
pub mod Expiry
pub mod Safety
pub mod Progress
pub mod Retry
use kube_graphql.Common.{
  if◌then◌else◌, pos, ◌+ℤ◌, ◌*ℤ◌, ltb_ℤ, wrap_64, Text, Bool, not, none, some, List, [], ◌∷◌,
}
use kube_graphql.Api.{Time}
use kube_graphql.Store.{
  ClusterModel, Db, Objects, ResourceTypes, Clusters, delete_resource_types_for_cluster,
  list_stale_clusters, delete_cluster, delete_objects_for_cluster,
}

-- `cluster.LastSeen.Add(time.Duration(cluster.TTL) * time.Second)`: the product is an int64.
unfoldable pub expiry : ClusterModel → Time
expiry c = c.last_seen +ℤ wrap_64 (c.ttl *ℤ pos 1000000000)

-- `!now.Before(expiry)`.
unfoldable pub is_expired : Time → ClusterModel → Bool
is_expired now c = not (ltb_ℤ now (expiry c))

module _ (db : Db) where
  -- The three tables of the store.
  pub record Tables : Type 0 where
    pub objects : Objects db
    pub resource_types : ResourceTypes db
    pub clusters : Clusters db

  -- The deletions for one expired cluster: an error ends them.
  unfoldable pub remove_cluster : Text → Tables → Tables
  remove_cluster name s = elim (delete_objects_for_cluster db name s.objects) [
    | none ↦ s
    | some objects ↦ elim (delete_resource_types_for_cluster db name s.resource_types) [
      | none ↦ record s { objects = objects }
      | some resource_types ↦ elim (delete_cluster db name s.clusters) [
        | none ↦ record s { objects = objects; resource_types = resource_types }
        | some clusters ↦ record {
          objects = objects;
          resource_types = resource_types;
          clusters = clusters;
        }
      ]
    ]
  ]

  -- The loop over the stale clusters.
  unfoldable pub collect_clusters : Time → List ClusterModel → Tables → Tables
  collect_clusters now [] s = s
  collect_clusters now (c ∷ cs) s =
      collect_clusters now cs (if is_expired now c then remove_cluster c.name s else s)

  -- `collect`, at the time `now`; without the list of clusters it ends.
  unfoldable pub collect : Time → Tables → Tables
  collect now s = elim (list_stale_clusters db now s.clusters) [
    | none ↦ s
    | some clusters ↦ collect_clusters now clusters s
  ]
