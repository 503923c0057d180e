-- ===== src/Tests/Discovery.antt =====
-- A server with a resource of the blacklist, a subresource and one to watch, for a run of discovery.
use kube_graphql.Common.{
  All, Text, codes, text_eq, ◌≡◌, refl, true, Option, none, some, List, [], ◌∷◌,
}
use kube_graphql.Store.{upsert_resource_type, delete_resource_types_for_cluster}
use kube_graphql.Sync.Discovery.{
  default_blacklist, Blacklist, new_blacklist, is_blacklisted, ApiResource, ApiResourceList,
  DiscoveredResource, has_verbs, has_slash, resource_type_of, watch, discover_resources,
  discover_lists, run_discovery,
}
use kube_graphql.Sync.Discovery.Stored.{IsAllowed, run_discovery-IsAllowed}
use kube_graphql.Sync.Discovery.Watchable.{IsWatchable, run_discovery-IsWatchable}
use kube_graphql.Tests.Database.{memory}

abbrev resource_named : Text → Text → ApiResource
resource_named name kind = record {
  name = name;
  singular_name = [];
  kind = kind;
  short_names = [];
  categories = [];
  namespaced = true;
  verbs = codes "get" ∷ codes "list" ∷ codes "watch" ∷ [];
}

abbrev lists : List (Option ApiResourceList)
lists =
    some (record {
      group_version = codes "v1";
      api_resources =
          resource_named (codes "secrets") (codes "Secret")
          ∷ resource_named (codes "pods/log") (codes "Pod")
          ∷ resource_named (codes "pods") (codes "Pod")
          ∷ [];
    })
    ∷ none
    ∷ []

abbrev marshal_strings : List Text → Text
marshal_strings texts = codes "[]"

abbrev parse_group_version : Text → Option (Text × Text)
parse_group_version group_version = some ([], group_version)

abbrev blacklist : Blacklist
blacklist = new_blacklist default_blacklist

abbrev watched : List DiscoveredResource
watched =
    record {
      gvr = record { group = []; version = codes "v1"; resource = codes "pods" };
      kind = codes "Pod";
      singular = [];
      short_names = [];
      categories = [];
      namespaced = true;
    }
    ∷ []

watched_found :
    (run_discovery memory marshal_strings parse_group_version blacklist
      (codes "one")
      lists
      true
      []).0
    ≡ some watched
unfolding run_discovery discover_lists discover_resources watch has_slash is_blacklisted
    new_blacklist upsert_resource_type delete_resource_types_for_cluster has_verbs codes text_eq
    resource_type_of
watched_found = refl

run_discovery-IsWatchable_example : All (IsWatchable blacklist) watched
run_discovery-IsWatchable_example =
    run_discovery-IsWatchable memory marshal_strings parse_group_version blacklist (codes "one")
      lists true [] watched watched_found

run_discovery-IsAllowed_example :
    All
      (IsAllowed blacklist (codes "one"))
      (run_discovery memory marshal_strings parse_group_version blacklist
        (codes "one")
        lists
        true
        []).1
run_discovery-IsAllowed_example =
    run_discovery-IsAllowed memory marshal_strings parse_group_version blacklist (codes "one") lists
      true [] watched watched_found
