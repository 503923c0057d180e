-- ===== src/Sync/Discovery.antt =====
-- internal/sync/discovery.go and blacklist.go: which resources of a cluster are synced. What the
-- cluster's server lists is an argument; logging is left out.
pub mod Watchable
pub mod Stored
pub mod Isolation
use kube_graphql.Common.{
  ◌==◌, if◌then◌else◌, length, some_of, Text, codes, text_eq, Bool, true, false, ◌&&◌, ◌||◌, Option,
  none, some, List, [], ◌∷◌, ◌++◌,
}
use kube_graphql.Store.{
  ResourceTypeModel, Db, ResourceTypes, upsert_resource_type, delete_resource_types_for_cluster,
}

-- schema.GroupVersionResource and schema.GroupResource.
pub record GroupVersionResource : Type 0 where
  pub group : Text
  pub version : Text
  pub resource : Text

pub record GroupResource : Type 0 where
  pub group : Text
  pub resource : Text

-- `DefaultBlacklist`.
abbrev pub default_blacklist : List GroupVersionResource
default_blacklist =
    record { group = []; version = codes "v1"; resource = codes "secrets" }
    ∷ record { group = []; version = codes "v1"; resource = codes "events" }
    ∷ record { group = codes "events.k8s.io"; version = codes "v1"; resource = codes "events" }
    ∷ []

-- The entries of a Blacklist: a set, as a list.
abbrev pub Blacklist : Type 0
Blacklist = List GroupResource

-- `NewBlacklist`.
unfoldable pub new_blacklist : List GroupVersionResource → Blacklist
new_blacklist [] = []
new_blacklist (gvr ∷ gvrs) =
    record { group = gvr.group; resource = gvr.resource } ∷ new_blacklist gvrs

-- `IsBlacklisted`.
unfoldable pub is_blacklisted : Blacklist → GroupResource → Bool
is_blacklisted b gr = some_of (λ e. text_eq e.group gr.group && text_eq e.resource gr.resource) b

-- metav1.APIResource and metav1.APIResourceList, of which a pointer may be nil.
pub record ApiResource : Type 0 where
  pub name : Text
  pub singular_name : Text
  pub kind : Text
  pub short_names : List Text
  pub categories : List Text
  pub namespaced : Bool
  pub verbs : List Text

pub record ApiResourceList : Type 0 where
  pub group_version : Text
  pub api_resources : List ApiResource

-- DiscoveredResource.
pub record DiscoveredResource : Type 0 where
  pub gvr : GroupVersionResource
  pub kind : Text
  pub singular : Text
  pub short_names : List Text
  pub categories : List Text
  pub namespaced : Bool

-- `hasVerbs`.
unfoldable pub has_verbs : List Text → List Text → Bool
has_verbs verbs [] = true
has_verbs verbs (r ∷ required) = some_of (λ v. text_eq v r) verbs && has_verbs verbs required

-- `strings.Contains(name, "/")`.
unfoldable pub has_slash : Text → Bool
has_slash name = some_of (λ c. c == b'/') name

-- What is behind a prefix of a text, if it has that prefix.
unfoldable pub cut_prefix : Text → Text → Option Text
cut_prefix [] s = some s
cut_prefix (c ∷ p) [] = none
cut_prefix (c ∷ p) (d ∷ s) = if c == d then cut_prefix p s else none

-- The names of a resource's subresources among all resources of the list.
unfoldable pub subresources_of : Text → List ApiResource → List Text
subresources_of name [] = []
subresources_of name (sub ∷ subs) =
    let rest = subresources_of name subs in
    elim (cut_prefix (name ++ codes "/") sub.name) [ none ↦ rest | some s ↦ s ∷ rest ]

-- `json.Marshal` of strings and `schema.ParseGroupVersion` are parameters.
module _ (db : Db) (marshal_strings : List Text → Text)
    (parse_group_version : Text → Option (Text × Text)) (bl : Blacklist) (cluster_name : Text) where
  -- The row for a resource.
  unfoldable pub resource_type_of : Text → Text → List ApiResource → ApiResource → ResourceTypeModel
  resource_type_of group version all ar = record {
    cluster = cluster_name;
    api_group = group;
    api_version = version;
    kind = ar.kind;
    singular = ar.singular_name;
    resource = ar.name;
    short_names = marshal_strings ar.short_names;
    categories = marshal_strings ar.categories;
    namespaced = ar.namespaced;
    subresources = marshal_strings (subresources_of ar.name all);
    identity = [];
  }

  -- `append(watchable, …)` for a resource with both verbs.
  unfoldable pub watch :
      Text → Text → ApiResource → List DiscoveredResource → List DiscoveredResource
  watch group version ar watchable =
      if has_verbs ar.verbs (codes "list" ∷ codes "watch" ∷ [])
      then watchable
        ++ record {
          gvr = record { group = group; version = version; resource = ar.name };
          kind = ar.kind;
          singular = ar.singular_name;
          short_names = ar.short_names;
          categories = ar.categories;
          namespaced = ar.namespaced;
        }
          ∷ []
      else watchable

  -- The loop over the resources of a list.
  unfoldable pub discover_resources :
      Text
      → Text
      → List ApiResource
      → List ApiResource
      → List DiscoveredResource
      → ResourceTypes db
      → List DiscoveredResource × ResourceTypes db
  discover_resources group version all [] watchable s = (watchable, s)
  discover_resources group version all (ar ∷ ars) watchable s =
      elim (has_slash ar.name || is_blacklisted bl (record { group = group; resource = ar.name })) [
        | true ↦ discover_resources group version all ars watchable s
        | false ↦ elim (upsert_resource_type db (resource_type_of group version all ar) s) [
          | none ↦ discover_resources group version all ars watchable s
          | some s' ↦ discover_resources group version all ars (watch group version ar watchable) s'
        ]
      ]

  -- The loop over the lists.
  unfoldable pub discover_lists :
      List (Option ApiResourceList)
      → List DiscoveredResource
      → ResourceTypes db
      → List DiscoveredResource × ResourceTypes db
  discover_lists [] watchable s = (watchable, s)
  discover_lists (none ∷ ls) watchable s = discover_lists ls watchable s
  discover_lists (some l ∷ ls) watchable s = elim (parse_group_version l.group_version) [
    | none ↦ discover_lists ls watchable s
    | some (group, version) ↦
        let after = discover_resources group version l.api_resources l.api_resources watchable s in
        discover_lists ls after.0 after.1
  ]

  -- `RunDiscovery`: what the server lists, and whether it reports an error with it.
  unfoldable pub run_discovery :
      List (Option ApiResourceList)
      → Bool
      → ResourceTypes db
      → Option (List DiscoveredResource) × ResourceTypes db
  run_discovery lists failed s =
      if failed && length lists == 0
      then (none, s)
      else elim (delete_resource_types_for_cluster db cluster_name s) [
        | none ↦ (none, s)
        | some s' ↦ let after = discover_lists lists [] s' in (some after.0, after.1)
      ]
