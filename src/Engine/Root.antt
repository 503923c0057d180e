-- ===== src/Engine/Root.antt =====
-- The query over root objects: buildRootClauses, buildPathExpr, buildSelectCols and
-- generateRootOnly of internal/engine/generator.go.
pub mod Conditions
pub mod Placeholders
pub mod Texts
pub mod Arguments
use kube_graphql.Common.{
  if◌then◌else◌, pos, ltb_ℤ, format, Text, codes, is_empty, join, concat, Bool, true, false, ◌&&◌,
  Option, none, some, List, [], ◌∷◌, ◌++◌,
}
use kube_graphql.Api.{PageSpec, QuerySpec}
use kube_graphql.Engine.Codec.{Codec}
use kube_graphql.Engine.Order.{build_order_by, build_cursor_filter}
use kube_graphql.Engine.Projection.{build_projection}
use kube_graphql.Engine.Root.Conditions.{build_root_clauses, root_joins}
use kube_graphql.Engine.Sql.{Arg}

-- GeneratedQuery.
pub record GeneratedQuery : Type 0 where
  pub sql : Text
  pub args : List Arg
  pub count_sql : Text
  pub count_args : List Arg
  pub has_relations : Bool

-- `buildPathExpr`.
unfoldable pub build_path_expr : Text → Text
build_path_expr alias = concat (
    codes "'.' || lower("
    ∷ alias
    ∷ codes ".kind) || '.' || "
    ∷ alias
    ∷ codes ".namespace || '/' || "
    ∷ alias
    ∷ codes ".name"
    ∷ [])

-- The columns that every query selects.
unfoldable pub row_columns : List Text
row_columns =
    codes ".id"
    ∷ codes ".uid"
    ∷ codes ".cluster"
    ∷ codes ".api_group"
    ∷ codes ".api_version"
    ∷ codes ".kind"
    ∷ codes ".resource"
    ∷ codes ".namespace"
    ∷ codes ".name"
    ∷ codes ".labels"
    ∷ codes ".annotations"
    ∷ codes ".owner_refs"
    ∷ codes ".conditions"
    ∷ codes ".creation_ts"
    ∷ codes ".resource_version"
    ∷ []

-- Each column of an alias with a comma behind it.
unfoldable pub columns_of : Text → List Text → Text
columns_of alias [] = []
columns_of alias (c ∷ cs) = alias ++ (c ++ (codes ", " ++ columns_of alias cs))

-- `buildSelectCols`.
unfoldable pub build_select_cols : Text → Text → Text → Bool → Text
build_select_cols alias projection path include_meta = concat (
    columns_of alias row_columns
    ∷ projection
    ∷ codes " AS projected_object, "
    ∷ path
    ∷ codes " AS path"
    ∷ (if include_meta then codes ", 0 AS level, '' AS relation_name" else [])
    ∷ [])

-- The joins, each behind a space.
unfoldable pub spaced : List Text → Text
spaced [] = []
spaced (j ∷ js) = codes " " ++ (j ++ spaced js)

-- `" WHERE "` and the joined conditions, or nothing.
unfoldable pub where_text : List Text → Text
where_text [] = []
where_text (w ∷ ws) = codes " WHERE " ++ join (w ∷ ws) (codes " AND ")

-- The cursor's condition behind the others.
unfoldable pub cursor_text : List Text → Text → Text
cursor_text conditions cursor =
    if is_empty cursor
    then []
    else (elim conditions [ [] ↦ codes " WHERE " | _ ↦ codes " AND " ]) ++ cursor

-- The arguments of the cursor, which are added with its condition.
unfoldable pub cursor_args : Text × List Arg → List Arg
cursor_args (cursor, args) = if is_empty cursor then [] else args

-- `OFFSET` for a page by number.
unfoldable pub offset_text : Option PageSpec → Text
offset_text none = []
offset_text (some p) =
    if ltb_ℤ (pos 0) p.first && is_empty p.cursor then codes " OFFSET " ++ format p.first else []

-- `SELECT COUNT(*)` over the same joins and conditions, with no cursor and no limit.
unfoldable pub count_text : Text → List Text → List Text → Text
count_text alias joins conditions =
    concat
      (codes "SELECT COUNT(*) FROM objects " ∷ alias ∷ spaced joins ∷ where_text conditions ∷ [])

-- The queries that generateRootOnly returns for a projection.
unfoldable pub root_query : Codec → Text → QuerySpec → Text → GeneratedQuery
root_query c dialect q projection =
    let alias = codes "obj" in
    let root = build_root_clauses c dialect q alias in
    let cursor = build_cursor_filter c q in
    record {
      sql = concat (
          codes "SELECT "
          ∷ build_select_cols alias projection (build_path_expr alias) true
          ∷ codes " FROM objects "
          ∷ alias
          ∷ spaced (root_joins q alias)
          ∷ where_text root.clauses
          ∷ cursor_text root.clauses cursor.0
          ∷ codes " ORDER BY "
          ∷ build_order_by q
          ∷ codes " LIMIT "
          ∷ format q.limit
          ∷ offset_text q.page
          ∷ []);
      args = root.args ++ cursor_args cursor;
      count_sql = count_text alias (root_joins q alias) root.clauses;
      count_args = root.args;
      has_relations = false;
    }

-- `generateRootOnly`; `none` is the error of the projection.
unfoldable pub generate_root_only : Codec → Text → QuerySpec → Option GeneratedQuery
generate_root_only c dialect q = elim (build_projection c dialect q.objects (codes "obj")) [
  | none ↦ none
  | some projection ↦ some (root_query c dialect q projection)
]
