-- ===== src/Tests/Clusters.antt =====
-- Tables with a cluster that is alive and one that is gone, for runs of the collector's theorems.
use kube_graphql.Common.{
  All, pos, ◌+ℤ◌, ◌*ℤ◌, ◌≤ℤ◌, Text, codes, text_eq, ◌≡◌, ◌≢◌, ◌↔◌, true, none, [], ◌∷◌, arith,
}
use kube_graphql.Api.{Time}
use kube_graphql.Gc.{is_expired, Tables, collect}
use kube_graphql.Gc.Expiry.{is_due, is_expired_iff}
use kube_graphql.Gc.Progress.{IsReliable, Gone, collect_removes}
use kube_graphql.Gc.Retry.{IsRetryable, collect-IsRetryable}
use kube_graphql.Gc.Safety.{Untouched, collect-Untouched}
use kube_graphql.Store.{
  ObjectModel, ClusterModel, delete_resource_types_for_cluster, list_stale_clusters, delete_cluster,
  delete_objects_for_cluster,
}
use kube_graphql.Store.Rows.{clusters_of}
use kube_graphql.Tests.Database.{memory}

abbrev cluster_of : Text → Text → ClusterModel
cluster_of name status = record {
  name = name;
  status = status;
  last_seen = pos 0;
  engaged_at = none;
  labels = codes "{}";
  ttl = pos 3600;
}

abbrev alive : ClusterModel
alive = cluster_of (codes "alive") (codes "active")

abbrev gone : ClusterModel
gone = cluster_of (codes "gone") (codes "stale")

abbrev object_in : Text → ObjectModel
object_in cluster = record {
  id = cluster;
  uid = codes "u";
  cluster = cluster;
  api_group = [];
  api_version = codes "v1";
  kind = codes "Pod";
  resource = codes "pods";
  namespace = codes "default";
  name = codes "web";
  labels = codes "{}";
  annotations = codes "{}";
  owner_refs = codes "[]";
  conditions = codes "[]";
  creation_ts = none;
  resource_version = codes "1";
  object = codes "{}";
}

abbrev tables : Tables memory
tables = record {
  objects = object_in (codes "alive") ∷ object_in (codes "gone") ∷ [];
  resource_types = [];
  clusters = alive ∷ gone ∷ [];
}

-- Two hours after both were last seen.
abbrev now : Time
now = pos 7200000000000

is_expired_iff_example :
    (is_expired now gone ≡ true) ↔ (gone.last_seen +ℤ gone.ttl *ℤ pos 1000000000 ≤ℤ now)
is_expired_iff_example = is_expired_iff now gone (omega arith) (omega arith)

not_named :
    All (λ (c : ClusterModel). is_due now c ≡ true → c.name ≢ codes "alive") (alive ∷ gone ∷ [])
unfolding is_due codes text_eq
not_named = (λ e. ground (arith, e), (λ _ e. ground (arith, e), tt))

collect-Untouched_example : Untouched memory (codes "alive") tables (collect memory now tables)
collect-Untouched_example = collect-Untouched memory (codes "alive") now tables not_named

pub reliable : IsReliable memory
unfolding delete_objects_for_cluster delete_resource_types_for_cluster delete_cluster
    list_stale_clusters
reliable = record {
  objects = λ m s e. ground (arith, e);
  resource_types = λ m s e. ground (arith, e);
  clusters = λ m s e. ground (arith, e);
  list = λ t s e. ground (arith, e);
}

collect_removes_example :
    All
      (λ (c : ClusterModel). is_due now c ≡ true → Gone memory c.name (collect memory now tables))
      (alive ∷ gone ∷ [])
collect_removes_example = collect_removes memory reliable now tables

collect-IsRetryable_example :
    IsRetryable memory
      (codes "gone")
      (clusters_of (codes "gone") (alive ∷ gone ∷ []))
      (collect memory now tables)
collect-IsRetryable_example = collect-IsRetryable memory (codes "gone") now tables
