-- ===== src/Tests/Controller.antt =====
-- Calls of the sync controller on a database in memory.
use kube_graphql.Common.{
  if◌then◌else◌, All, pos, ◌+ℤ◌, ltb_ℤ, eq_ℤ, Text, codes, text_eq, text_ne, ◌≡◌, refl, ◌≢◌, true,
  false, Option, none, some, List, [], ◌∷◌, map,
}
use kube_graphql.Api.{Time}
use kube_graphql.Gc.{Tables, collect}
use kube_graphql.Gc.Progress.{Gone}
use kube_graphql.Gc.Safety.{Untouched}
use kube_graphql.Store.{
  ClusterModel, upsert_resource_type, delete_resource_types_for_cluster, upsert_cluster,
}
use kube_graphql.Store.Interface.{upsert}
use kube_graphql.Sync.Controller.{
  Server, Worker, cancel, Call, engaged, disengaged, Controller, new_sync_controller, stop, start,
  store_cluster, discover, finish_engage, engage, disengage, call, calls,
}
use kube_graphql.Sync.Controller.Debounce.{
  CrdEvent, crd_added, crd_updated, crd_deleted, Refresher, on_crd_events, IsDebounced,
  on_crd_events-IsDebounced,
}
use kube_graphql.Sync.Controller.Isolation.{call_name, Kept, calls-Kept}
use kube_graphql.Sync.Controller.Lifetime.{
  FillsDefaults, engage-Untouched, disengage-Untouched, disengage-Gone,
}
use kube_graphql.Sync.Controller.Tracking.{IsTracked, Stopped, calls-IsTracked, disengage-Stopped}
use kube_graphql.Sync.Discovery.{
  is_blacklisted, ApiResource, has_slash, discover_resources, discover_lists, run_discovery,
}
use kube_graphql.Tests.Clusters.{reliable}
use kube_graphql.Tests.Database.{memory}

abbrev fill : ClusterModel → ClusterModel
fill m = record m { ttl = if eq_ℤ m.ttl (pos 0) then pos 3600 else m.ttl }

defaults : FillsDefaults fill
defaults = record {
  name = λ m. refl;
  status = λ m. refl;
  last_seen = λ m. refl;
  ttl = λ m e. rw e refl;
}

abbrev marshal_strings : List Text → Text
marshal_strings ss = codes "[]"

abbrev parse_group_version : Text → Option (Text × Text)
parse_group_version gv = some ([], gv)

abbrev empty_tables : Tables memory
empty_tables = record { objects = []; resource_types = []; clusters = [] }

abbrev pods : ApiResource
pods = record {
  name = codes "pods";
  singular_name = codes "pod";
  kind = codes "Pod";
  short_names = [];
  categories = [];
  namespaced = true;
  verbs = codes "list" ∷ codes "watch" ∷ [];
}

abbrev server : Server
server = record {
  discovery_client = true;
  dynamic_client = true;
  lists = some (record { group_version = codes "v1"; api_resources = pods ∷ [] }) ∷ [];
  failed = false;
  takes = λ gvr. true;
}

abbrev one : Text
one = codes "one"

abbrev some_calls : List Call
some_calls =
    engaged (pos 1) one server
    ∷ engaged (pos 2) one server
    ∷ disengaged (pos 3) one
    ∷ engaged (pos 4) one server
    ∷ []

abbrev reached : Controller memory
reached =
    calls memory fill marshal_strings parse_group_version [] some_calls
      (new_sync_controller memory empty_tables)

calls-IsTracked_example : IsTracked memory reached
calls-IsTracked_example =
    calls-IsTracked memory fill marshal_strings parse_group_version [] some_calls empty_tables

-- One of three engagements still runs.
running : map (λ (w : Worker). w.cancelled) reached.workers ≡ true ∷ true ∷ false ∷ []
unfolding calls call engage disengage stop store_cluster upsert_cluster discover run_discovery
    delete_resource_types_for_cluster discover_lists discover_resources finish_engage start cancel
    upsert text_eq codes has_slash is_blacklisted upsert_resource_type
running = refl

disengage-Stopped_example :
    All
      (Stopped memory one)
      (disengage memory fill marshal_strings parse_group_version [] (pos 5) one reached).1.workers
disengage-Stopped_example =
    disengage-Stopped memory fill marshal_strings parse_group_version [] (pos 5) one reached
      calls-IsTracked_reached
  where
    calls-IsTracked_reached : IsTracked memory reached
    calls-IsTracked_reached =
        calls-IsTracked memory fill marshal_strings parse_group_version [] some_calls empty_tables

abbrev blank : Controller memory
blank = new_sync_controller memory empty_tables

returns_none :
    (engage memory fill marshal_strings parse_group_version [] (pos 1) one server blank).0 ≡ none
unfolding engage stop store_cluster upsert_cluster discover run_discovery
    delete_resource_types_for_cluster discover_lists discover_resources finish_engage upsert
    has_slash is_blacklisted upsert_resource_type codes
returns_none = refl

engage-Untouched_example :
    let t =
      (engage memory fill marshal_strings parse_group_version []
        (pos 1)
        one
        server
        blank).1.tables in
    Untouched memory one t (collect memory (pos 9000000000000) t)
engage-Untouched_example =
    engage-Untouched memory fill marshal_strings parse_group_version [] defaults (pos 1)
      (pos 9000000000000) one server blank (λ e. cc (e, returns_none))

returns_true :
    (disengage memory fill marshal_strings parse_group_version [] (pos 1) one blank).0 ≡ true
unfolding disengage stop store_cluster upsert_cluster upsert
returns_true = refl

early : ltb_ℤ (pos 3000000000000) (pos 1 +ℤ pos 3600000000000) ≡ true
unfolding ◌+ℤ◌
early = refl

late : ltb_ℤ (pos 9000000000000) (pos 1 +ℤ pos 3600000000000) ≡ false
unfolding ◌+ℤ◌
late = refl

disengage-Untouched_example :
    let t =
      (disengage memory fill marshal_strings parse_group_version [] (pos 1) one blank).1.tables in
    Untouched memory one t (collect memory (pos 3000000000000) t)
disengage-Untouched_example =
    disengage-Untouched memory fill marshal_strings parse_group_version [] defaults (pos 1)
      (pos 3000000000000) one blank returns_true early

disengage-Gone_example : Gone memory one (
    collect memory
      (pos 9000000000000)
      (disengage memory fill marshal_strings parse_group_version [] (pos 1) one blank).1.tables)
disengage-Gone_example =
    disengage-Gone memory fill marshal_strings parse_group_version [] defaults (pos 1)
      (pos 9000000000000) one blank reliable returns_true late

abbrev crd_events : List (CrdEvent × Time × Server)
crd_events =
    (crd_added, pos 1, server)
    ∷ (crd_updated, pos 2, server)
    ∷ (crd_deleted, pos 40000000000, server)
    ∷ []

abbrev refresher : Refresher memory marshal_strings parse_group_version [] one
refresher = record { last_refresh = none; resource_types = [] }

on_crd_events-IsDebounced_example :
    IsDebounced memory marshal_strings parse_group_version [] one crd_events refresher
      (on_crd_events memory marshal_strings parse_group_version [] one crd_events refresher)
on_crd_events-IsDebounced_example =
    on_crd_events-IsDebounced memory marshal_strings parse_group_version [] one crd_events refresher

abbrev two : Text
two = codes "two"

-- A controller with another cluster.
abbrev with_two : Controller memory
with_two =
    calls memory fill marshal_strings parse_group_version [] (engaged (pos 0) two server ∷ [])
      (new_sync_controller memory empty_tables)

other_calls : All (λ c. call_name c ≢ two) some_calls
unfolding text_eq codes
other_calls = let apart : one ≢ two = text_ne _ _ refl in (apart, (apart, (apart, (apart, tt))))

calls-Kept_example :
    Kept memory two with_two
      (calls memory fill marshal_strings parse_group_version [] some_calls with_two)
calls-Kept_example =
    calls-Kept memory two fill (λ m. refl) marshal_strings parse_group_version [] some_calls
      with_two other_calls
