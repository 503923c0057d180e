-- ===== src/Engine/Projection.antt =====
-- internal/engine/projection.go: the SQL expression for a sparse projection. The error of
-- BuildProjectionSQL is `none`.
pub mod Plain
use kube_graphql.Common.{
  if◌then◌else◌, Text, codes, is_empty, join, split, concat, Option, none, some, List, [], ◌∷◌,
  ◌++◌,
}
use kube_graphql.Api.{ObjectsSpec, absent, shape}
use kube_graphql.Engine.Codec.{Json, boolean, object, scalar, JsonFields, no_fields, field, Codec}
use kube_graphql.Engine.Filter.Labels.{is_postgres}

-- `buildPostgresPath`: the text of the path is split at its dots.
unfoldable pub arrows : List Text → Text
arrows [] = []
arrows (p ∷ ps) = codes "->'" ++ (p ++ (codes "'" ++ arrows ps))

unfoldable pub postgres_path : Text → Text → Text
postgres_path alias path = alias ++ (codes ".object" ++ arrows (split path b'.'))

unfoldable pub sqlite_path : Text → Text → Text
sqlite_path alias path =
    concat (codes "json_extract(" ∷ alias ∷ codes ".object, '$." ∷ path ∷ codes "')" ∷ [])

-- `childPath`.
unfoldable pub child_path : Text → Text → Text
child_path path key = if is_empty path then key else path ++ (codes "." ++ key)

-- The call of `function` on the parts, and NULL without any.
unfoldable pub object_call : Text → List Text → Text
object_call function [] = codes "NULL"
object_call function (p ∷ ps) =
    concat (function ∷ codes "(" ∷ join (p ∷ ps) (codes ", ") ∷ codes ")" ∷ [])

unfoldable pub field_part : Text → Text → Text
field_part key expr = concat (codes "'" ∷ key ∷ codes "', " ∷ expr ∷ [])

-- `buildProjectionSQLite` and `buildProjectionPostgres` differ in `leaf`, the expression for a path,
-- and in `function`, the constructor of an object.
module _ (leaf : Text → Text → Text) (function alias : Text) where
  unfoldable mutual
    pub project : Json → Text → Text
    project (boolean b) path = if b then leaf alias path else codes "NULL"
    project (object fields) path = object_call function (project_fields fields path)
    project scalar path = leaf alias path

    pub project_fields : JsonFields → Text → List Text
    project_fields no_fields path = []
    project_fields (field key value fields) path =
        field_part key (project value (child_path path key)) ∷ project_fields fields path

unfoldable pub build_projection_sqlite : Json → Text → Text → Text
build_projection_sqlite json alias path = project sqlite_path (codes "json_object") alias json path

unfoldable pub build_projection_postgres : Json → Text → Text → Text
build_projection_postgres json alias path =
    project postgres_path (codes "jsonb_build_object") alias json path

-- `BuildProjectionSQL`.
unfoldable pub build_projection_sql : Codec → Text → Text → Text → Option Text
build_projection_sql c [] dialect alias = some (alias ++ codes ".object")
build_projection_sql c (b ∷ raw) dialect alias = elim (c.unmarshal_any (b ∷ raw)) [
  | none ↦ none
  | some json ↦
      if is_postgres dialect
      then some (build_projection_postgres json alias [])
      else some (build_projection_sqlite json alias [])
]

-- `buildProjection` of internal/engine/generator.go.
unfoldable pub build_projection : Codec → Text → ObjectsSpec → Text → Option Text
build_projection c dialect absent alias = some (alias ++ codes ".object")
build_projection c dialect (shape id cluster path none relations) alias =
    some (alias ++ codes ".object")
build_projection c dialect (shape id cluster path (some raw) relations) alias =
    if is_empty raw
    then some (alias ++ codes ".object")
    else build_projection_sql c raw dialect alias
