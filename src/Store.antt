-- ===== src/Store.antt =====
-- internal/store: the models of models.go, and the operations of store.go. The database behind them
-- is the interface Table: what its statements do to the rows is assumed, in the interface's laws.
pub mod Interface
pub mod Rows
pub mod Upsert
pub mod Select
pub mod Keys
use kube_graphql.Common.{ℤ, ltb_ℤ, Text, codes, text_eq, Bool, ◌&&◌, Option, List}
use kube_graphql.Api.{Time}
use kube_graphql.Store.Interface.{Table}

-- ObjectModel. A JSON column is its text, a UUID is a text too.
pub record ObjectModel : Type 0 where
  pub id : Text
  pub uid : Text
  pub cluster : Text
  pub api_group : Text
  pub api_version : Text
  pub kind : Text
  pub resource : Text
  pub namespace : Text
  pub name : Text
  pub labels : Text
  pub annotations : Text
  pub owner_refs : Text
  pub conditions : Text
  pub creation_ts : Option Time
  pub resource_version : Text
  pub object : Text

-- ResourceTypeModel.
pub record ResourceTypeModel : Type 0 where
  pub cluster : Text
  pub api_group : Text
  pub api_version : Text
  pub kind : Text
  pub singular : Text
  pub resource : Text
  pub short_names : Text
  pub categories : Text
  pub namespaced : Bool
  pub subresources : Text
  pub identity : Text

-- ClusterModel.
pub record ClusterModel : Type 0 where
  pub name : Text
  pub status : Text
  pub last_seen : Time
  pub engaged_at : Option Time
  pub labels : Text
  pub ttl : ℤ

-- The columns of the conflict clause of `UpsertObject`.
unfoldable pub same_object : ObjectModel → ObjectModel → Bool
same_object a b =
    text_eq a.cluster b.cluster
    && (text_eq a.api_group b.api_group
        && (text_eq a.kind b.kind && (text_eq a.namespace b.namespace && text_eq a.name b.name)))

-- The columns that `UpsertObject` assigns on a conflict: all but those five and the id.
unfoldable pub assign_object : ObjectModel → ObjectModel → ObjectModel
assign_object new old = record old {
  uid = new.uid;
  api_version = new.api_version;
  resource = new.resource;
  labels = new.labels;
  annotations = new.annotations;
  owner_refs = new.owner_refs;
  conditions = new.conditions;
  creation_ts = new.creation_ts;
  resource_version = new.resource_version;
  object = new.object;
}

unfoldable pub same_resource_type : ResourceTypeModel → ResourceTypeModel → Bool
same_resource_type a b =
    text_eq a.cluster b.cluster
    && (text_eq a.api_group b.api_group
        && (text_eq a.resource b.resource && text_eq a.identity b.identity))

unfoldable pub assign_resource_type : ResourceTypeModel → ResourceTypeModel → ResourceTypeModel
assign_resource_type new old = record old {
  api_version = new.api_version;
  kind = new.kind;
  singular = new.singular;
  short_names = new.short_names;
  categories = new.categories;
  namespaced = new.namespaced;
  subresources = new.subresources;
}

unfoldable pub same_cluster : ClusterModel → ClusterModel → Bool
same_cluster a b = text_eq a.name b.name

unfoldable pub assign_cluster : ClusterModel → ClusterModel → ClusterModel
assign_cluster new old = record old {
  status = new.status;
  last_seen = new.last_seen;
  engaged_at = new.engaged_at;
  labels = new.labels;
  ttl = new.ttl;
}

-- The database: one table for each model.
pub record Db : Type 1 where
  pub objects : Table ObjectModel
  pub resource_types : Table ResourceTypeModel
  pub clusters : Table ClusterModel

module _ (db : Db) where
  abbrev pub Objects : Type 0
  Objects = db.objects.State

  abbrev pub ResourceTypes : Type 0
  ResourceTypes = db.resource_types.State

  abbrev pub Clusters : Type 0
  Clusters = db.clusters.State

  unfoldable pub upsert_object : ObjectModel → Objects → Option Objects
  upsert_object obj s = db.objects.insert_or_update same_object assign_object obj s

  unfoldable pub delete_object : Text → Text → Text → Text → Text → Objects → Option Objects
  delete_object cluster api_group kind namespace name s =
      db.objects.delete_where
        (λ r.
          text_eq r.cluster cluster
          && (text_eq r.api_group api_group
              && (text_eq r.kind kind && (text_eq r.namespace namespace && text_eq r.name name))))
        s

  unfoldable pub upsert_resource_type : ResourceTypeModel → ResourceTypes → Option ResourceTypes
  upsert_resource_type rt s =
      db.resource_types.insert_or_update same_resource_type assign_resource_type rt s

  unfoldable pub delete_resource_types_for_cluster : Text → ResourceTypes → Option ResourceTypes
  delete_resource_types_for_cluster cluster s =
      db.resource_types.delete_where (λ r. text_eq r.cluster cluster) s

  unfoldable pub upsert_cluster : ClusterModel → Clusters → Option Clusters
  upsert_cluster c s = db.clusters.insert_or_update same_cluster assign_cluster c s

  unfoldable pub list_stale_clusters : Time → Clusters → Option (List ClusterModel)
  list_stale_clusters expired_before s =
      db.clusters.select_where
        (λ r. text_eq r.status (codes "stale") && ltb_ℤ r.last_seen expired_before) s

  unfoldable pub delete_cluster : Text → Clusters → Option Clusters
  delete_cluster name s = db.clusters.delete_where (λ r. text_eq r.name name) s

  unfoldable pub delete_objects_for_cluster : Text → Objects → Option Objects
  delete_objects_for_cluster cluster s = db.objects.delete_where (λ r. text_eq r.cluster cluster) s
