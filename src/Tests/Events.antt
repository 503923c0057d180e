-- ===== src/Tests/Events.antt =====
-- Events of one informer on an empty table, for runs of the sync theorems.
use kube_graphql.Common.{
  keep, Text, codes, text_eq, ◌≡◌, refl, not, none, some, List, [], ◌∷◌, arith,
}
use kube_graphql.Store.{ObjectModel, upsert_object, delete_object}
use kube_graphql.Store.Interface.{upsert}
use kube_graphql.Store.Rows.{objects_of}
use kube_graphql.Sync.Handler.{
  without_conditions, Unstructured, unstructured, deleted_final_state_unknown, foreign,
  as_unstructured, to_unstructured, extract_conditions, EventHandler, id_key, to_object_model,
  on_add, on_update, on_delete,
}
use kube_graphql.Sync.Handler.Events.{IsSynced, Stores, on_update-Stores}
use kube_graphql.Sync.Handler.Identity.{HasNoSlash, id_key-injective}
use kube_graphql.Sync.Handler.Informers.{
  HandlerCall, run_informers, IsStoring, run_informers-objects_of,
}
use kube_graphql.Sync.Handler.Sequences.{
  Event, added, deleted, updated, has_key, run, run-IsSynced, on_delete-removes,
}
use kube_graphql.Tests.Database.{memory}

abbrev new_sha1 : Text → Text
new_sha1 key = key

abbrev handler : EventHandler
handler = record {
  cluster_name = codes "one";
  group = [];
  version = codes "v1";
  resource = codes "pods";
  kind = codes "Pod";
}

abbrev pod : Unstructured
pod = record {
  uid = codes "u";
  namespace = codes "default";
  name = codes "web";
  labels = codes "{}";
  annotations = codes "{}";
  owner_references = codes "[]";
  resource_version = codes "1";
  creation_timestamp = none;
  status = without_conditions;
  object = some (codes "{}");
}

abbrev pod_model : ObjectModel
pod_model = record {
  id = id_key (codes "one") [] (codes "Pod") (codes "default") (codes "web");
  uid = codes "u";
  cluster = codes "one";
  api_group = [];
  api_version = codes "v1";
  kind = codes "Pod";
  resource = codes "pods";
  namespace = codes "default";
  name = codes "web";
  labels = codes "{}";
  annotations = codes "{}";
  owner_refs = codes "[]";
  conditions = codes "[]";
  creation_ts = none;
  resource_version = codes "1";
  object = codes "{}";
}

abbrev no_group : Text
no_group = []

no_slash : HasNoSlash (codes "one" ∷ [] ∷ codes "Pod" ∷ codes "default" ∷ codes "web" ∷ [])
unfolding codes
no_slash = ground arith

id_key-injective_example :
    (codes "one" ≡ codes "one")
    × (no_group ≡ no_group)
    × (codes "Pod" ≡ codes "Pod")
    × (codes "default" ≡ codes "default")
    × (codes "web" ≡ codes "web")
id_key-injective_example =
    id_key-injective (codes "one") [] (codes "Pod") (codes "default") (codes "web") (codes "one") []
      (codes "Pod") (codes "default") (codes "web") no_slash no_slash refl

empty-IsSynced : IsSynced new_sha1 []
empty-IsSynced = record { unique = tt; ids = tt }

delivered_pod : to_unstructured (unstructured pod) ≡ some pod
unfolding to_unstructured
delivered_pod = refl

modelled : to_object_model new_sha1 handler pod ≡ some pod_model
unfolding to_object_model extract_conditions
modelled = refl

stored : upsert_object memory pod_model [] ≡ some (pod_model ∷ [])
unfolding upsert_object upsert
stored = refl

on_update-Stores_example :
    Stores new_sha1 handler memory pod_model []
      (on_add new_sha1 handler memory (unstructured pod) [])
    × Stores new_sha1 handler memory pod_model []
        (on_update new_sha1 handler memory foreign (unstructured pod) [])
on_update-Stores_example =
    on_update-Stores new_sha1 handler memory (unstructured pod) foreign pod pod_model []
      (pod_model ∷ []) empty-IsSynced delivered_pod modelled stored

abbrev events : List Event
events =
    added (unstructured pod)
    ∷ updated (unstructured pod) foreign
    ∷ deleted (deleted_final_state_unknown (unstructured pod))
    ∷ []

run-IsSynced_example : IsSynced new_sha1 (run new_sha1 handler memory events [])
run-IsSynced_example = run-IsSynced new_sha1 handler memory events [] empty-IsSynced

tombstone_pod : to_unstructured (deleted_final_state_unknown (unstructured pod)) ≡ some pod
unfolding to_unstructured as_unstructured
tombstone_pod = refl

removed :
    delete_object memory
      (codes "one")
      []
      (codes "Pod")
      (codes "default")
      (codes "web")
      (pod_model ∷ [])
    ≡ some []
unfolding delete_object codes text_eq
removed = refl

on_delete-removes_example :
    (keep (has_key handler pod) (
        on_delete new_sha1 handler memory
          (deleted_final_state_unknown (unstructured pod))
          (pod_model ∷ []))
      ≡ [])
    × (keep
          (λ r. not (has_key handler pod r))
          (on_delete new_sha1 handler memory
            (deleted_final_state_unknown (unstructured pod))
            (pod_model ∷ []))
        ≡ keep (λ r. not (has_key handler pod r)) (pod_model ∷ []))
on_delete-removes_example =
    on_delete-removes new_sha1 handler memory (deleted_final_state_unknown (unstructured pod)) pod
      (pod_model ∷ []) [] tombstone_pod removed

abbrev other_handler : EventHandler
other_handler = record handler { cluster_name = codes "two" }

abbrev calls : List HandlerCall
calls =
    (handler, added (unstructured pod))
    ∷ (other_handler, added (unstructured pod))
    ∷ (other_handler, deleted (unstructured pod))
    ∷ []

storing : IsStoring new_sha1 memory
unfolding upsert_object delete_object
storing = record { insert = λ m s e. cc e; delete = λ c g k m n s e. cc e }

run_informers-objects_of_example :
    objects_of (codes "one") (run_informers new_sha1 memory calls [])
    ≡ objects_of (codes "one") (
        run_informers new_sha1 memory (keep (λ c. text_eq c.0.cluster_name (codes "one")) calls) [])
run_informers-objects_of_example =
    run_informers-objects_of new_sha1 memory storing (codes "one") calls [] [] refl
