-- ===== src/Engine/Transitive.antt =====
-- internal/engine/transitive.go: the recursive CTE of a transitive relation. The error of
-- buildTransitiveCTE is `none`.
pub mod Placeholders
pub mod Arguments
use kube_graphql.Common.{
  if◌then◌else◌, ◌>>=◌, ℤ, pos, ltb_ℤ, format, Text, codes, text_eq, concat, decimal, ℕ, Option,
  none, some, List, [], ◌∷◌, ◌++◌,
}
use kube_graphql.Api.{GroupKindFilter, ObjectFilter, ObjectsSpec}
use kube_graphql.Engine.Codec.{Codec}
use kube_graphql.Engine.Filter.{equal_clause}
use kube_graphql.Engine.Filter.Labels.{is_postgres}
use kube_graphql.Engine.Projection.{build_projection}
use kube_graphql.Engine.Relations.{rel_owners, rel_descendants, rel_linked}
use kube_graphql.Engine.Root.{build_path_expr, row_columns, columns_of, spaced, where_text}
use kube_graphql.Engine.Sql.{Arg, Clauses, no_clauses, ◌⊕◌, sprintf}

-- An ancestor of a relation's rows: its alias and the join that binds it.
pub record Ancestor : Type 0 where
  pub alias : Text
  pub join_clause : Text

-- transitiveResult.
pub record TransitiveResult : Type 0 where
  pub cte_name : Text
  pub cte_sql : Text
  pub cte_args : List Arg
  pub select_sql : Text
  pub select_args : List Arg

-- The arguments of buildTransitiveCTE behind the relation's base type, but for the dialect.
pub record TransitiveRequest : Type 0 where
  pub cte_name : Text
  pub root_alias : Text
  pub root_path : Text
  pub parent_alias : Text
  pub ancestors : List Ancestor
  pub limit : ℤ
  pub filters : List ObjectFilter
  pub objects : ObjectsSpec
  pub max_depth : ℤ
  pub level_num : ℕ
  pub relation_name : Text

-- One of two formats, for PostgreSQL or else for SQLite.
abbrev pub condition_with : Text → Text → Text → List Text → Text
condition_with dialect postgres sqlite args =
    if is_postgres dialect then sprintf postgres args else sprintf sqlite args

-- `descendantJoinCond`.
unfoldable pub descendant_join_cond : Text → Text → Text → Text
descendant_join_cond child parent dialect =
    condition_with dialect
      (codes "%s.owner_refs @> jsonb_build_array(jsonb_build_object('uid', %s.uid))")
      (codes
        "EXISTS (SELECT 1 FROM json_each(%s.owner_refs) oref WHERE json_extract(oref.value, '$.uid') = %s.uid)")
      (child ∷ parent ∷ [])

-- `ownerJoinCond`.
unfoldable pub owner_join_cond : Text → Text → Text → Text
owner_join_cond child parent dialect =
    condition_with dialect
      (codes "%s.uid IN (SELECT ref->>'uid' FROM jsonb_array_elements(%s.owner_refs) ref)")
      (codes
        "%s.uid IN (SELECT json_extract(oref.value, '$.uid') FROM json_each(%s.owner_refs) oref)")
      (child ∷ parent ∷ [])

-- `linkedJoinCond`.
unfoldable pub linked_join_cond : Text → Text → Text → Text
linked_join_cond child parent dialect =
    condition_with dialect
      (codes
        "EXISTS (SELECT 1 FROM jsonb_array_elements((%s.object->'metadata'->'annotations'->>'kuery.io/relates-to')::jsonb) ref WHERE %s.cluster = COALESCE(ref->>'cluster', %s.cluster) AND %s.api_group = COALESCE(ref->>'group', '') AND %s.kind = ref->>'kind' AND %s.namespace = COALESCE(ref->>'namespace', '') AND %s.name = ref->>'name')")
      (codes
        "EXISTS (SELECT 1 FROM json_each(json_extract(%s.annotations, '$.\"kuery.io/relates-to\"')) ref WHERE %s.cluster = COALESCE(json_extract(ref.value, '$.cluster'), %s.cluster) AND %s.api_group = COALESCE(json_extract(ref.value, '$.group'), '') AND %s.kind = json_extract(ref.value, '$.kind') AND %s.namespace = COALESCE(json_extract(ref.value, '$.namespace'), '') AND %s.name = json_extract(ref.value, '$.name'))")
      (parent ∷ child ∷ parent ∷ child ∷ child ∷ child ∷ child ∷ [])

-- The switch over the base type: the condition that joins a child to a parent.
unfoldable pub join_cond : Text → Option (Text → Text → Text → Text)
join_cond relation_type =
    if text_eq relation_type rel_descendants
    then some descendant_join_cond
    else if text_eq relation_type rel_owners
    then some owner_join_cond
    else if text_eq relation_type rel_linked
    then some linked_join_cond
    else none

-- The segment of a path for one more object.
unfoldable pub path_segment : Text → Text
path_segment alias = codes " || " ++ build_path_expr alias

-- The path of the root, and a segment for each ancestor.
unfoldable pub path_through : Text → List Ancestor → Text
path_through path [] = path
path_through path (a ∷ rest) = path_through (path ++ path_segment a.alias) rest

unfoldable pub ancestor_joins : List Ancestor → List Text
ancestor_joins [] = []
ancestor_joins (a ∷ rest) = a.join_clause ∷ ancestor_joins rest

-- `, %d AS level, '%s' AS relation_name`.
unfoldable pub level_columns : ℕ → Text → Text
level_columns level name =
    concat
      (codes ", " ∷ decimal level ∷ codes " AS level, '" ∷ name ∷ codes "' AS relation_name" ∷ [])

-- `baseVisited`, `recursiveVisited` and `cycleCheck`.
unfoldable pub base_visited : Text → Text → Text
base_visited dialect child =
    if is_postgres dialect
    then sprintf (codes "ARRAY[%s.uid]") (child ∷ [])
    else sprintf (codes "',' || %s.uid || ','") (child ∷ [])

unfoldable pub recursive_visited : Text → Text → Text
recursive_visited dialect cte =
    if is_postgres dialect
    then sprintf (codes "%s.visited || next.uid") (cte ∷ [])
    else sprintf (codes "%s.visited || next.uid || ','") (cte ∷ [])

unfoldable pub cycle_check : Text → Text → Text
cycle_check dialect cte =
    if is_postgres dialect
    then sprintf (codes "next.uid != ALL(%s.visited)") (cte ∷ [])
    else cte ++ codes ".visited NOT LIKE '%,' || next.uid || ',%'"

-- The columns of an object's row with its manifest.
abbrev pub cte_columns : List Text
cte_columns = row_columns ++ codes ".object" ∷ []

-- `baseCols`.
unfoldable pub base_cols : Text → TransitiveRequest → Text → Text
base_cols dialect r projection =
    let child = codes "curr" in
    concat (
      columns_of child cte_columns
      ∷ projection
      ∷ codes " AS projected_object, "
      ∷ path_through r.root_path r.ancestors
      ∷ path_segment child
      ∷ codes " AS path, 1 AS depth, "
      ∷ base_visited dialect child
      ∷ codes " AS visited"
      ∷ level_columns r.level_num r.relation_name
      ∷ [])

-- `recursiveCols`.
unfoldable pub recursive_cols : Text → TransitiveRequest → Text → Text
recursive_cols dialect r projection =
    let child = codes "next" in
    concat (
      columns_of child cte_columns
      ∷ projection
      ∷ codes " AS projected_object, "
      ∷ r.cte_name
      ∷ codes ".path"
      ∷ path_segment child
      ∷ codes " AS path, "
      ∷ r.cte_name
      ∷ codes ".depth + 1, "
      ∷ recursive_visited dialect r.cte_name
      ∷ codes " AS visited"
      ∷ level_columns r.level_num r.relation_name
      ∷ [])

-- The CTE: the direct children, and what is reached from them.
unfoldable pub cte_text :
    Text → TransitiveRequest → (Text → Text → Text → Text) → Text → Text → Text
cte_text dialect r cond projection next_projection =
    let child = codes "curr" in
    concat (
      r.cte_name
      ∷ codes " AS (\n  SELECT "
      ∷ base_cols dialect r projection
      ∷ codes "\n  FROM root_objects "
      ∷ r.root_alias
      ∷ spaced (ancestor_joins r.ancestors)
      ∷ codes "\n  JOIN objects "
      ∷ child
      ∷ codes " ON "
      ∷ cond child r.parent_alias dialect
      ∷ codes " AND "
      ∷ child
      ∷ codes ".cluster = "
      ∷ r.parent_alias
      ∷ codes ".cluster\n  UNION ALL\n  SELECT "
      ∷ recursive_cols dialect r next_projection
      ∷ codes "\n  FROM objects next\n  JOIN "
      ∷ r.cte_name
      ∷ codes " ON "
      ∷ cond (codes "next") r.cte_name dialect
      ∷ codes " AND next.cluster = "
      ∷ r.cte_name
      ∷ codes ".cluster\n  WHERE "
      ∷ cycle_check dialect r.cte_name
      ∷ codes " AND "
      ∷ r.cte_name
      ∷ codes ".depth < "
      ∷ format r.max_depth
      ∷ codes "\n)"
      ∷ [])

unfoldable pub kind_condition : Text → Option GroupKindFilter → Clauses
kind_condition alias none = no_clauses
kind_condition alias (some gk) = equal_clause alias (codes ".kind") gk.kind

-- The conditions of one filter: of its fields only kind, name and namespace are read.
unfoldable pub transitive_clauses_of : Text → ObjectFilter → Clauses
transitive_clauses_of alias f =
    kind_condition alias f.group_kind
    ⊕ equal_clause alias (codes ".name") f.name
    ⊕ equal_clause alias (codes ".namespace") f.namespace

-- `filterWhere` and `filterArgs`.
unfoldable pub transitive_clauses : Text → List ObjectFilter → Clauses
transitive_clauses alias [] = no_clauses
transitive_clauses alias (f ∷ fs) = transitive_clauses_of alias f ⊕ transitive_clauses alias fs

-- The columns that are read from the CTE.
unfoldable pub select_from_cte : Text → List Text → Text
select_from_cte cte ws = concat (
    codes "SELECT "
    ∷ columns_of cte row_columns
    ∷ cte
    ∷ codes ".projected_object, "
    ∷ cte
    ∷ codes ".path, "
    ∷ cte
    ∷ codes ".level, "
    ∷ cte
    ∷ codes ".relation_name FROM "
    ∷ cte
    ∷ where_text ws
    ∷ [])

-- A query with a limit, if it has one.
unfoldable pub limited : ℤ → Text → Text
limited limit sql =
    if ltb_ℤ (pos 0) limit
    then concat (codes "SELECT * FROM (" ∷ sql ∷ codes " LIMIT " ∷ format limit ∷ codes ")" ∷ [])
    else sql

-- What buildTransitiveCTE returns once both projections are known.
unfoldable pub transitive_result :
    Text → TransitiveRequest → (Text → Text → Text → Text) → Text → Text → TransitiveResult
transitive_result dialect r cond projection next_projection =
    let filtered = transitive_clauses (codes "curr") r.filters in
    record {
      cte_name = r.cte_name;
      cte_sql = cte_text dialect r cond projection next_projection;
      cte_args = [];
      select_sql = limited r.limit (select_from_cte r.cte_name filtered.clauses);
      select_args = filtered.args;
    }

-- `buildTransitiveCTE`: an error for another base type, or for a projection that does not decode.
unfoldable pub build_transitive_cte :
    Codec → Text → Text → TransitiveRequest → Option TransitiveResult
build_transitive_cte c relation_type dialect r = do
  cond ← join_cond relation_type
  projection ← build_projection c dialect r.objects (codes "curr")
  next_projection ← build_projection c dialect r.objects (codes "next")
  some (transitive_result dialect r cond projection next_projection)
