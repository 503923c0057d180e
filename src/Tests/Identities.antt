-- ===== src/Tests/Identities.antt =====
-- An APIExport on a database in memory, and the name of a schema.
use mathlib.Core.Option.{some-injective}
use mathlib.Core.Path.{subst}
use kube_graphql.Common.{
  if◌then◌else◌, Bool-cases, All, Text, codes, text_eq, Lacks, ◌≡◌, refl, inl, inr, Bool, true,
  false, Option, none, some, List, [], ◌∷◌, map, arith,
}
use kube_graphql.Store.{ResourceTypeModel, upsert_resource_type, delete_resource_types_for_cluster}
use kube_graphql.Sync.Discovery.{
  is_blacklisted, ApiResourceList, DiscoveredResource, has_verbs, has_slash, watch,
  discover_resources, discover_lists, run_discovery,
}
use kube_graphql.Sync.Identities.{
  string_value, ApiExport, parse_schema_name, run_kcp_discovery, enrich_with_kcp_identity,
}
use kube_graphql.Sync.Identities.Lookup.{Finds, without_identities, enrich-run_kcp_discovery}
use kube_graphql.Sync.Identities.Names.{schema_name, parse_schema_name-schema_name}
use kube_graphql.Tests.Database.{memory}

Lacks-names : Lacks b'.' (codes "v1") × Lacks b'.' (codes "widgets")
unfolding codes
Lacks-names = ground arith

parse_schema_name-schema_name_example :
    parse_schema_name (schema_name (codes "v1") (codes "widgets") (codes "example.io"))
    ≡ some (codes "widgets", codes "example.io")
parse_schema_name-schema_name_example =
    parse_schema_name-schema_name (codes "v1") (codes "widgets") (codes "example.io") Lacks-names.0
      Lacks-names.1

abbrev update :
    (ResourceTypeModel → Bool) → Text → List ResourceTypeModel → Option (List ResourceTypeModel)
update p identity rs = some (map (λ r. if p r then record r { identity = identity } else r) rs)

abbrev first : (ResourceTypeModel → Bool) → List ResourceTypeModel → Option ResourceTypeModel
first p [] = none
first p (r ∷ rs) = if p r then some r else first p rs

first_passes :
    (p : ResourceTypeModel → Bool) (s : List ResourceTypeModel) (r : ResourceTypeModel)
    → first p s ≡ some r
    → p r ≡ true
first_passes p [] r e = cc e
first_passes p (x ∷ s) r e = elim (Bool-cases (p x)) [
  | inl h ↦ subst (λ y. p y ≡ true) (some-injective _ _ (rw h at e)) h
  | inr h ↦ first_passes p s r (rw h at e)
]

first_stored :
    (p : ResourceTypeModel → Bool) (s : List ResourceTypeModel) (r : ResourceTypeModel)
    → first p s ≡ some r
    → (P : ResourceTypeModel → Type 0) → All P s
    → P r
first_stored p [] r e P h = cc e
first_stored p (x ∷ s) r e P h = elim (Bool-cases (p x)) [
  | inl k ↦ subst P (some-injective _ _ (rw k at e)) h.0
  | inr k ↦ first_stored p s r (rw k at e) P h.1
]

finds : Finds memory update first (codes "one")
finds = record { passes = first_passes; stored = first_stored }

abbrev marshal_strings : List Text → Text
marshal_strings ss = codes "[]"

abbrev parse_group_version : Text → Option (Text × Text)
parse_group_version gv = some (codes "example.io", gv)

abbrev lists : List (Option ApiResourceList)
lists =
    some (record {
      group_version = codes "v1";
      api_resources =
          record {
            name = codes "widgets";
            singular_name = codes "widget";
            kind = codes "Widget";
            short_names = [];
            categories = [];
            namespaced = true;
            verbs = codes "list" ∷ codes "watch" ∷ [];
          }
          ∷ [];
    })
    ∷ []

abbrev widgets : List DiscoveredResource
widgets =
    record {
      gvr = record { group = codes "example.io"; version = codes "v1"; resource = codes "widgets" };
      kind = codes "Widget";
      singular = codes "widget";
      short_names = [];
      categories = [];
      namespaced = true;
    }
    ∷ []

widgets_found :
    (run_discovery memory marshal_strings parse_group_version [] (codes "one") lists false []).0
    ≡ some widgets
unfolding run_discovery delete_resource_types_for_cluster discover_lists discover_resources
    has_slash is_blacklisted upsert_resource_type watch has_verbs codes text_eq
widgets_found = refl

abbrev exports : Option (List ApiExport)
exports = some (
    record {
      identity_hash = some (codes "hash");
      latest_resource_schemas = some (string_value (codes "v1.widgets.example.io") ∷ []);
    }
    ∷ [])

enrich-run_kcp_discovery_example :
    enrich_with_kcp_identity memory update first (codes "one") widgets (
      run_kcp_discovery memory update first
        (codes "one")
        exports
        (run_discovery memory marshal_strings parse_group_version []
          (codes "one")
          lists
          false
          []).1)
    ≡ without_identities memory update first (codes "one") widgets
enrich-run_kcp_discovery_example =
    enrich-run_kcp_discovery memory update first (codes "one") finds [] marshal_strings
      parse_group_version lists false [] widgets exports widgets_found
