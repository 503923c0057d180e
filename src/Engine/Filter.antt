-- ===== src/Engine/Filter.antt =====
-- The conditions for one ObjectFilter: buildObjectFilterWithRT of internal/engine/generator.go.
-- Each criterion has a function; the source appends their conditions in the same order. Its third
-- result, needsRT, is never set and never read.
pub mod Labels
pub mod Placeholders
pub mod Arguments
use kube_graphql.Common.{
  if◌then◌else◌, Text, codes, is_empty, join, concat, to_lower, Option, none, some, List, [], ◌∷◌,
  ◌++◌,
}
use kube_graphql.Api.{Time, GroupKindFilter, ConditionFilter, TimestampFilter, ObjectFilter}
use kube_graphql.Engine.Codec.{Codec}
use kube_graphql.Engine.Filter.Labels.{is_postgres, expression_clauses, label_clauses}
use kube_graphql.Engine.Sql.{Arg, text, time, Clauses, no_clauses, clause, ◌⊕◌}

-- The test of an object's resource type, up to the condition on it.
unfoldable pub resource_type : Text → Text → Text → Text
resource_type alias rt condition = concat (
    codes "EXISTS (SELECT 1 FROM resource_types "
    ∷ rt
    ∷ codes " WHERE "
    ∷ rt
    ∷ codes ".cluster = "
    ∷ alias
    ∷ codes ".cluster AND "
    ∷ rt
    ∷ codes ".api_group = "
    ∷ alias
    ∷ codes ".api_group AND "
    ∷ rt
    ∷ codes ".kind = "
    ∷ alias
    ∷ codes ".kind AND "
    ∷ condition
    ∷ codes ")"
    ∷ [])

-- A kind, resource, singular or short name.
unfoldable pub kind_condition : Text → Text → Text
kind_condition dialect rt =
    let last : List Text =
      if is_postgres dialect
      then codes ".singular) = lower(?) OR ? = ANY(ARRAY(SELECT jsonb_array_elements_text("
        ∷ rt
        ∷ codes ".short_names))))"
        ∷ []
      else codes ".singular) = lower(?) OR EXISTS (SELECT 1 FROM json_each("
        ∷ rt
        ∷ codes ".short_names) WHERE json_each.value = lower(?)))"
        ∷ [] in
    concat (
      codes "(lower("
      ∷ rt
      ∷ codes ".kind) = lower(?) OR lower("
      ∷ rt
      ∷ codes ".resource) = lower(?) OR lower("
      ∷ rt
      ∷ last)

unfoldable pub category_condition : Text → Text → Text
category_condition dialect rt =
    if is_postgres dialect
    then concat
        (codes "? = ANY(ARRAY(SELECT jsonb_array_elements_text(" ∷ rt ∷ codes ".categories)))" ∷ [])
    else concat (
        codes "EXISTS (SELECT 1 FROM json_each("
        ∷ rt
        ∷ codes ".categories) WHERE json_each.value = ?)"
        ∷ [])

-- `alias.column = ?`, unless the value is empty.
unfoldable pub equal_clause : Text → Text → Text → Clauses
equal_clause alias column value =
    if is_empty value
    then no_clauses
    else clause (concat (alias ∷ column ∷ codes " = ?" ∷ [])) (text value ∷ [])

module _ (dialect alias rt : Text) where
  unfoldable pub kind_clauses : Text → Clauses
  kind_clauses kind =
      if is_empty kind
      then no_clauses
      else clause (resource_type alias rt (kind_condition dialect rt))
          (text kind ∷ text kind ∷ text kind ∷ text (to_lower kind) ∷ [])

  unfoldable pub group_kind_clauses : Option GroupKindFilter → Clauses
  group_kind_clauses none = no_clauses
  group_kind_clauses (some gk) =
      equal_clause alias (codes ".api_group") gk.api_group ⊕ kind_clauses gk.kind

  unfoldable pub category_clauses : List Text → Clauses
  category_clauses [] = no_clauses
  category_clauses (cat ∷ cats) =
      clause (resource_type alias rt (category_condition dialect rt)) (text cat ∷ [])
      ⊕ category_clauses cats

module _ (alias : Text) where
  -- `alias.creation_ts > ?` or `<`.
  unfoldable pub time_clause : Text → Option Time → Clauses
  time_clause comparison none = no_clauses
  time_clause comparison (some t) =
      clause (concat (alias ∷ codes ".creation_ts " ∷ comparison ∷ codes " ?" ∷ [])) (time t ∷ [])

  unfoldable pub timestamp_clauses : Option TimestampFilter → Clauses
  timestamp_clauses none = no_clauses
  timestamp_clauses (some f) = time_clause (codes ">") f.after ⊕ time_clause (codes "<") f.before

-- The optional part of a condition, `column = ?` in SQLite.
unfoldable pub condition_part : Text → Text → List Text
condition_part column value = if is_empty value then [] else column ∷ []

unfoldable pub condition_arg : Text → List Arg
condition_arg value = if is_empty value then [] else text value ∷ []

-- `condParts`.
unfoldable pub condition_parts : Text → Text → List Text
unfolding condition_part
condition_parts status reason =
    codes "json_extract(je.value, '$.type') = ?"
    ∷ (condition_part (codes "json_extract(je.value, '$.status') = ?") status
        ++ condition_part (codes "json_extract(je.value, '$.reason') = ?") reason)

-- The entry of the map `condJSON` for a value that is not empty.
unfoldable pub condition_entry : Text → Text → List (Text × Text)
condition_entry key value = if is_empty value then [] else (key, value) ∷ []

module _ (c : Codec) (dialect alias : Text) where
  unfoldable pub condition_clause : ConditionFilter → Clauses
  condition_clause cond =
      if is_postgres dialect
      then clause (concat (alias ∷ codes ".conditions @> ?::jsonb" ∷ [])) (
          text (
            c.marshal_maps (
              ((codes "type", cond.kind) ∷ condition_entry (codes "status") cond.status
                ++ condition_entry (codes "reason") cond.reason)
              ∷ []))
          ∷ [])
      else clause
          (concat (
            codes "EXISTS (SELECT 1 FROM json_each("
            ∷ alias
            ∷ codes ".conditions) je WHERE "
            ∷ join (condition_parts cond.status cond.reason) (codes " AND ")
            ∷ codes ")"
            ∷ []))
          (text cond.kind ∷ (condition_arg cond.status ++ condition_arg cond.reason))

  unfoldable pub condition_clauses : List ConditionFilter → Clauses
  condition_clauses [] = no_clauses
  condition_clauses (cond ∷ conds) = condition_clause cond ⊕ condition_clauses conds

module _ (dialect alias : Text) where
  unfoldable pub json_path_clauses : Text → Clauses
  json_path_clauses path =
      if is_empty path
      then no_clauses
      else if is_postgres dialect
      then clause (concat (codes "jsonb_path_match(" ∷ alias ∷ codes ".object, ?::jsonpath)" ∷ []))
          (text path ∷ [])
      else clause
          (concat (
            codes "json_extract("
            ∷ alias
            ∷ codes ".object, ?) IS NOT NULL AND json_extract("
            ∷ alias
            ∷ codes ".object, ?) != 'false' AND json_extract("
            ∷ alias
            ∷ codes ".object, ?) != 0"
            ∷ []))
          (text path ∷ text path ∷ text path ∷ [])

-- `buildObjectFilterWithRT`.
unfoldable pub build_object_filter_with_rt : Codec → Text → ObjectFilter → Text → Text → Clauses
build_object_filter_with_rt c dialect f alias rt =
    group_kind_clauses dialect alias rt f.group_kind
    ⊕ equal_clause alias (codes ".name") f.name
    ⊕ equal_clause alias (codes ".namespace") f.namespace
    ⊕ label_clauses dialect alias c f.labels
    ⊕ condition_clauses c dialect alias f.conditions
    ⊕ timestamp_clauses alias f.creation_timestamp
    ⊕ equal_clause alias (codes ".id") f.id
    ⊕ category_clauses dialect alias rt f.categories
    ⊕ expression_clauses dialect alias f.label_expressions
    ⊕ json_path_clauses dialect alias f.json_path

-- `buildObjectFilter`.
unfoldable pub build_object_filter : Codec → Text → ObjectFilter → Text → Clauses
build_object_filter c dialect f alias = build_object_filter_with_rt c dialect f alias (codes "rt")
