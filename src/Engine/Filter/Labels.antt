-- ===== src/Engine/Filter/Labels.antt =====
-- The criteria on labels of buildObjectFilterWithRT in internal/engine/generator.go: the map of
-- labels and the label expressions. A key is written into the SQL, a value is an argument.
use kube_graphql.Common.{
  Bool, List, [], ◌∷◌, map, Text, codes, join, concat, text_eq, if◌then◌else◌,
}
use kube_graphql.Api.{LabelExpression, LabelOperator, in_set, not_in, exists, does_not_exist, other}
use kube_graphql.Engine.Sql.{text, Clauses, no_clauses, clause, ◌⊕◌}
use kube_graphql.Engine.Codec.{Codec}

-- `case "postgres"` of a switch on the dialect; any other dialect takes the default branch.
unfoldable pub is_postgres : Text → Bool
is_postgres dialect = text_eq dialect (codes "postgres")

-- A label of an object.
unfoldable pub label_path : Text → Text → Text → Text
label_path dialect alias key =
    if is_postgres dialect
    then concat (alias ∷ codes ".labels->>'" ∷ key ∷ codes "'" ∷ [])
    else concat (codes "json_extract(" ∷ alias ∷ codes ".labels, '$." ∷ key ∷ codes "')" ∷ [])

-- `placeholders`: a question mark for each value.
abbrev pub placeholders : List Text → List Text
placeholders [] = []
placeholders (v ∷ vs) = codes "?" ∷ placeholders vs

module _ (dialect alias : Text) where
  unfoldable pub in_clause : Text → List Text → Text
  in_clause key values = concat (
      label_path dialect alias key
      ∷ codes " IN ("
      ∷ join (placeholders values) (codes ", ")
      ∷ codes ")"
      ∷ [])

  unfoldable pub not_in_clause : Text → List Text → Text
  not_in_clause key values = concat (
      codes "("
      ∷ label_path dialect alias key
      ∷ codes " IS NULL OR "
      ∷ label_path dialect alias key
      ∷ codes " NOT IN ("
      ∷ join (placeholders values) (codes ", ")
      ∷ codes "))"
      ∷ [])

  unfoldable pub exists_clause : Text → Text
  exists_clause key =
      if is_postgres dialect
      then concat (alias ∷ codes ".labels ? '" ∷ key ∷ codes "'" ∷ [])
      else concat (label_path dialect alias key ∷ codes " IS NOT NULL" ∷ [])

  unfoldable pub does_not_exist_clause : Text → Text
  does_not_exist_clause key =
      if is_postgres dialect
      then concat (codes "NOT (" ∷ alias ∷ codes ".labels ? '" ∷ key ∷ codes "')" ∷ [])
      else concat (label_path dialect alias key ∷ codes " IS NULL" ∷ [])

  -- In and NotIn have no condition without values, and an unknown operator has none at all.
  unfoldable pub operator_clauses : LabelOperator → Text → List Text → Clauses
  operator_clauses in_set key [] = no_clauses
  operator_clauses in_set key (v ∷ vs) = clause (in_clause key (v ∷ vs)) (map text (v ∷ vs))
  operator_clauses not_in key [] = no_clauses
  operator_clauses not_in key (v ∷ vs) = clause (not_in_clause key (v ∷ vs)) (map text (v ∷ vs))
  operator_clauses exists key values = clause (exists_clause key) []
  operator_clauses does_not_exist key values = clause (does_not_exist_clause key) []
  operator_clauses (other name) key values = no_clauses

  unfoldable pub expression_clauses : List LabelExpression → Clauses
  expression_clauses [] = no_clauses
  expression_clauses (e ∷ es) = operator_clauses e.operator e.key e.values ⊕ expression_clauses es

  -- One condition for each label: the default dialect.
  unfoldable pub label_clauses_each : List (Text × Text) → Clauses
  label_clauses_each [] = no_clauses
  label_clauses_each ((k, v) ∷ labels) =
      clause
        (concat (codes "json_extract(" ∷ alias ∷ codes ".labels, '$." ∷ k ∷ codes "') = ?" ∷ []))
        (text v ∷ [])
      ⊕ label_clauses_each labels

  unfoldable pub label_clauses : Codec → List (Text × Text) → Clauses
  label_clauses c [] = no_clauses
  label_clauses c (l ∷ labels) =
      if is_postgres dialect
      then clause (concat (alias ∷ codes ".labels @> ?::jsonb" ∷ []))
          (text (c.marshal_map (l ∷ labels)) ∷ [])
      else label_clauses_each (l ∷ labels)
