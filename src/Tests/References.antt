-- ===== src/Tests/References.antt =====
-- A registered reference, for a run of its theorem.
use kube_graphql.Common.{keep, All, codes, Lacks, ◌≡◌, [], ◌∷◌, ◌++◌}
use kube_graphql.Engine.Refs.{
  RefPath, builtin_ref_paths, register, new_ref_path_registry, lookup_source,
}
use kube_graphql.Engine.Refs.Registry.{comes_from, lookup_source-register}

abbrev custom : RefPath
custom = record {
  source_kind = codes "Pod";
  source_group = [];
  target_kind = codes "Widget";
  target_group = [];
  pg_path = codes "$.spec.widget";
  sqlite_array_path = [];
  sqlite_field_path = codes "$.spec.widget";
}

custom_group : All (λ (p : RefPath). Lacks b'/' p.source_group) (custom ∷ [])
custom_group = (tt, tt)

lookup_source-register_example :
    lookup_source [] (codes "Pod") (register (custom ∷ []) new_ref_path_registry)
    ≡ keep (comes_from [] (codes "Pod")) builtin_ref_paths
      ++ keep (comes_from [] (codes "Pod")) (custom ∷ [])
lookup_source-register_example =
    lookup_source-register [] (codes "Pod") (custom ∷ []) tt custom_group
