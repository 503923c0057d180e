-- ===== src/Engine/Relations.antt =====
-- internal/engine/relations.go: the JOIN for each type of relation.
pub mod Joins
pub mod Placeholders
use kube_graphql.Common.{
  ◌==◌, if◌then◌else◌, some_of, Text, codes, text_eq, is_empty, join, to_lower, ℕ, Bool, true,
  false, Option, none, some, List, [], ◌∷◌, ◌++◌, map,
}
use kube_graphql.Api.{ObjectFilter}
use kube_graphql.Engine.Filter.Labels.{is_postgres}
use kube_graphql.Engine.Refs.{RefPath, builtin_ref_paths, RefPathRegistry, build_ref_name_subquery}
use kube_graphql.Engine.Sql.{text, Clauses, no_clauses, clause, sprintf}

abbrev pub rel_owners : Text
rel_owners = codes "owners"

abbrev pub rel_descendants : Text
rel_descendants = codes "descendants"

abbrev pub rel_references : Text
rel_references = codes "references"

abbrev pub rel_selects : Text
rel_selects = codes "selects"

abbrev pub rel_selected_by : Text
rel_selected_by = codes "selected-by"

abbrev pub rel_events : Text
rel_events = codes "events"

abbrev pub rel_linked : Text
rel_linked = codes "linked"

abbrev pub rel_grouped : Text
rel_grouped = codes "grouped"

-- `strings.HasSuffix(name, c)` and `strings.TrimSuffix(name, c)` for a suffix of one byte.
unfoldable pub has_suffix : ℕ → Text → Bool
has_suffix c [] = false
has_suffix c (b ∷ []) = b == c
has_suffix c (b ∷ d ∷ s) = has_suffix c (d ∷ s)

unfoldable pub trim_suffix : ℕ → Text → Text
trim_suffix c [] = []
trim_suffix c (b ∷ []) = if b == c then [] else b ∷ []
trim_suffix c (b ∷ d ∷ s) = b ∷ trim_suffix c (d ∷ s)

-- `strings.TrimPrefix(name, c)` for a prefix of one byte.
unfoldable pub trim_prefix : ℕ → Text → Text
trim_prefix c [] = []
trim_prefix c (b ∷ s) = if b == c then s else b ∷ s

-- `IsTransitive` and `BaseRelation`.
unfoldable pub is_transitive : Text → Bool
is_transitive name = has_suffix b'+' name

unfoldable pub base_relation : Text → Text
base_relation name = trim_suffix b'+' name

-- relationContext.
pub record RelationContext : Type 0 where
  pub parent_alias : Text
  pub child_alias : Text
  pub dialect : Text
  pub filters : List ObjectFilter
  pub ref_registry : Option RefPathRegistry

-- A JOIN clause, and the conditions and arguments that go with it.
pub record RelationJoin : Type 0 where
  pub join_clause : Text
  pub extra : Clauses

abbrev pub only_join : Text → RelationJoin
only_join text_of = record { join_clause = text_of; extra = no_clauses }

-- The join that finds nothing.
abbrev pub empty_join : RelationContext → RelationJoin
empty_join ctx = only_join (sprintf (codes "JOIN objects %s ON 1=0") (ctx.child_alias ∷ []))

-- The join by one of two formats, for PostgreSQL or else for SQLite, each with its arguments.
abbrev pub join_with : RelationContext → Text → Text → List Text → List Text → RelationJoin
join_with ctx postgres sqlite postgres_args sqlite_args =
    only_join (
      if is_postgres ctx.dialect
      then sprintf postgres postgres_args
      else sprintf sqlite sqlite_args)

-- `buildDescendantJoin`.
unfoldable pub build_descendant_join : RelationContext → RelationJoin
build_descendant_join ctx =
    let c = ctx.child_alias in
    let p = ctx.parent_alias in
    join_with ctx
      (codes
        "JOIN objects %s ON %s.cluster = %s.cluster AND %s.owner_refs @> jsonb_build_array(jsonb_build_object('uid', %s.uid))")
      (codes
        "JOIN objects %s ON %s.cluster = %s.cluster AND EXISTS (SELECT 1 FROM json_each(%s.owner_refs) oref WHERE json_extract(oref.value, '$.uid') = %s.uid)")
      (c ∷ c ∷ p ∷ c ∷ p ∷ []) (c ∷ c ∷ p ∷ c ∷ p ∷ [])

-- `buildOwnerJoin`.
unfoldable pub build_owner_join : RelationContext → RelationJoin
build_owner_join ctx =
    let c = ctx.child_alias in
    let p = ctx.parent_alias in
    join_with ctx
      (codes
        "JOIN objects %s ON %s.cluster = %s.cluster AND %s.uid IN (SELECT ref->>'uid' FROM jsonb_array_elements(%s.owner_refs) ref)")
      (codes
        "JOIN objects %s ON %s.cluster = %s.cluster AND %s.uid IN (SELECT json_extract(oref.value, '$.uid') FROM json_each(%s.owner_refs) oref)")
      (c ∷ c ∷ p ∷ c ∷ p ∷ []) (c ∷ c ∷ p ∷ c ∷ p ∷ [])

-- The kinds that the filters of a references relation name.
unfoldable pub target_kinds : List ObjectFilter → List Text
target_kinds [] = []
target_kinds (f ∷ fs) = elim f.group_kind [
  | none ↦ target_kinds fs
  | some gk ↦ if is_empty gk.kind then target_kinds fs else gk.kind ∷ target_kinds fs
]

-- Whether a path's target is among the kinds, if there are any.
unfoldable pub is_targeted : List Text → RefPath → Bool
is_targeted [] path = true
is_targeted (k ∷ ks) path =
    some_of (λ kind. text_eq (to_lower path.target_kind) (to_lower kind)) (k ∷ ks)

-- The subqueries for the names, without their parentheses.
unfoldable pub name_subqueries : RelationContext → List RefPath → List Text
name_subqueries ctx [] = []
name_subqueries ctx (path ∷ paths) =
    let rest = name_subqueries ctx paths in
    if is_targeted (target_kinds ctx.filters) path
    then trim_suffix b')'
        (trim_prefix b'(' (build_ref_name_subquery path ctx.parent_alias ctx.dialect))
      ∷ rest
    else rest

-- A placeholder for each kind, and the kinds as arguments.
unfoldable pub kind_placeholders : List Text → List Text
kind_placeholders [] = []
kind_placeholders (k ∷ ks) = codes "?" ∷ kind_placeholders ks

unfoldable pub target_clauses : Text → List Text → Clauses
target_clauses alias [] = no_clauses
target_clauses alias (k ∷ ks) =
    clause
      (alias
        ++ (codes ".kind IN (" ++ (join (kind_placeholders (k ∷ ks)) (codes ",") ++ codes ")")))
      (map text (k ∷ ks))

-- The join for names in any of the subqueries.
unfoldable pub join_names : RelationContext → List Text → RelationJoin
join_names ctx [] = empty_join ctx
join_names ctx (q ∷ qs) =
    let c = ctx.child_alias in
    let p = ctx.parent_alias in
    record {
      join_clause =
          sprintf
            (codes
              "JOIN objects %s ON %s.cluster = %s.cluster AND %s.namespace = %s.namespace AND %s.name IN (%s)")
            (c ∷ c ∷ p ∷ c ∷ p ∷ c ∷ join (q ∷ qs) (codes " UNION ALL ") ∷ []);
      extra = target_clauses c (target_kinds ctx.filters);
    }

-- `buildReferenceJoin`: it reads the built-in paths only, and of the registry whether there is one.
unfoldable pub build_reference_join : RelationContext → RelationJoin
build_reference_join ctx = elim ctx.ref_registry [
  | none ↦ empty_join ctx
  | some _ ↦ join_names ctx (name_subqueries ctx builtin_ref_paths)
]
