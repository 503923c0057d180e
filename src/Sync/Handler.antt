-- ===== src/Sync/Handler.antt =====
-- internal/sync/handler.go: the informer's events on one kind of object in one cluster. An object of
-- Kubernetes is what the handler reads of it; the hash behind a UUID is a parameter.
pub mod Identity
pub mod Events
pub mod Sequences
pub mod Informers
use kube_graphql.Common.{Text, codes, concat, Option, none, some, [], ◌∷◌}
use kube_graphql.Api.{Time}
use kube_graphql.Store.{ObjectModel, Db, Objects, upsert_object, delete_object}

-- What `u.Object["status"]` holds: no map, a map without conditions, or one with conditions, which
-- may not marshal.
pub data Status : Type 0 where
  not_a_map without_conditions : Status
  conditions : Option Text → Status

-- unstructured.Unstructured, by its accessors; the JSON of a part is its text. The whole object may
-- fail to marshal, and a creation timestamp may be zero.
pub record Unstructured : Type 0 where
  pub uid : Text
  pub namespace : Text
  pub name : Text
  pub labels : Text
  pub annotations : Text
  pub owner_references : Text
  pub resource_version : Text
  pub creation_timestamp : Option Time
  pub status : Status
  pub object : Option Text

-- The value that an informer hands over: an object, a tombstone with the last known value, or
-- something else.
pub data Delivered : Type 0 where
  unstructured : Unstructured → Delivered
  deleted_final_state_unknown : Delivered → Delivered
  foreign : Delivered

unfoldable pub as_unstructured : Delivered → Option Unstructured
as_unstructured (unstructured u) = some u
as_unstructured (deleted_final_state_unknown d) = none
as_unstructured foreign = none

-- `toUnstructured` looks into one tombstone.
unfoldable pub to_unstructured : Delivered → Option Unstructured
to_unstructured (unstructured u) = some u
to_unstructured (deleted_final_state_unknown d) = as_unstructured d
to_unstructured foreign = none

-- `extractConditions`.
unfoldable pub extract_conditions : Unstructured → Text
extract_conditions u = elim u.status [
  | not_a_map ↦ codes "[]"
  | without_conditions ↦ codes "[]"
  | conditions marshalled ↦ elim marshalled [ none ↦ codes "[]" | some data_json ↦ data_json ]
]

-- EventHandler, without its store.
pub record EventHandler : Type 0 where
  pub cluster_name : Text
  pub group : Text
  pub version : Text
  pub resource : Text
  pub kind : Text

-- `idKey`.
unfoldable pub id_key : Text → Text → Text → Text → Text → Text
id_key cluster group kind namespace name =
    concat (
      cluster
      ∷ codes "/"
      ∷ group
      ∷ codes "/"
      ∷ kind
      ∷ codes "/"
      ∷ namespace
      ∷ codes "/"
      ∷ name
      ∷ [])

-- `uuid.NewSHA1(objectIDNamespace, …)` is the parameter `new_sha1`.
module _ (new_sha1 : Text → Text) (h : EventHandler) where
  -- `toObjectModel`; `none` is its error.
  unfoldable pub to_object_model : Unstructured → Option ObjectModel
  to_object_model u = elim u.object [
    | none ↦ none
    | some json ↦ some (record {
      id = new_sha1 (id_key h.cluster_name h.group h.kind u.namespace u.name);
      uid = u.uid;
      cluster = h.cluster_name;
      api_group = h.group;
      api_version = h.version;
      kind = h.kind;
      resource = h.resource;
      namespace = u.namespace;
      name = u.name;
      labels = u.labels;
      annotations = u.annotations;
      owner_refs = u.owner_references;
      conditions = extract_conditions u;
      creation_ts = u.creation_timestamp;
      resource_version = u.resource_version;
      object = json;
    })
  ]

  module _ (db : Db) where
    -- The state behind a statement: an error is logged and changes nothing.
    abbrev pub or_same : Option (Objects db) → Objects db → Objects db
    or_same none s = s
    or_same (some s') s = s'

    -- `upsert`.
    unfoldable pub upsert_delivered : Delivered → Objects db → Objects db
    upsert_delivered d s = elim (to_unstructured d) [
      | none ↦ s
      | some u ↦ elim (to_object_model u) [
        | none ↦ s
        | some model ↦ or_same (upsert_object db model s) s
      ]
    ]

    -- `OnAdd`.
    unfoldable pub on_add : Delivered → Objects db → Objects db
    on_add d s = upsert_delivered d s

    -- `OnUpdate`.
    unfoldable pub on_update : Delivered → Delivered → Objects db → Objects db
    on_update old new s = upsert_delivered new s

    -- `OnDelete`.
    unfoldable pub on_delete : Delivered → Objects db → Objects db
    on_delete d s = elim (to_unstructured d) [
      | none ↦ s
      | some u ↦ or_same (delete_object db h.cluster_name h.group h.kind u.namespace u.name s) s
    ]
