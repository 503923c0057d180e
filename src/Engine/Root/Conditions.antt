-- ===== src/Engine/Root/Conditions.antt =====
-- buildRootClauses of internal/engine/generator.go: the conditions on clusters and root objects.
use kube_graphql.Common.{
  if◌then◌else◌, Text, codes, join, concat, Option, none, some, List, [], ◌∷◌,
}
use kube_graphql.Api.{ClusterFilter, ObjectFilter, QueryFilter, QuerySpec}
use kube_graphql.Engine.Codec.{Codec}
use kube_graphql.Engine.Filter.{equal_clause, build_object_filter}
use kube_graphql.Engine.Filter.Labels.{is_postgres}
use kube_graphql.Engine.Sql.{Arg, text, Clauses, no_clauses, clause, ◌⊕◌}

-- The condition on one label of the cluster.
unfoldable pub cluster_label_clause : Codec → Text → Text → Text → Clauses
cluster_label_clause c dialect k v =
    if is_postgres dialect
    then clause (codes "cl.labels @> ?::jsonb") (text (c.marshal_map ((k, v) ∷ [])) ∷ [])
    else clause (concat (codes "json_extract(cl.labels, '$." ∷ k ∷ codes "') = ?" ∷ []))
        (text v ∷ [])

unfoldable pub cluster_label_clauses : Codec → Text → List (Text × Text) → Clauses
cluster_label_clauses c dialect [] = no_clauses
cluster_label_clauses c dialect ((k, v) ∷ labels) =
    cluster_label_clause c dialect k v ⊕ cluster_label_clauses c dialect labels

unfoldable pub cluster_clauses : Codec → Text → Option ClusterFilter → Text → Clauses
cluster_clauses c dialect none alias = no_clauses
cluster_clauses c dialect (some f) alias =
    equal_clause alias (codes ".cluster") f.name ⊕ cluster_label_clauses c dialect f.labels

-- The table of clusters is joined if the filter has labels.
unfoldable pub label_joins : List (Text × Text) → Text → List Text
label_joins [] alias = []
label_joins (l ∷ labels) alias =
    concat (codes "JOIN clusters cl ON cl.name = " ∷ alias ∷ codes ".cluster" ∷ []) ∷ []

unfoldable pub cluster_joins : Option ClusterFilter → Text → List Text
cluster_joins none alias = []
cluster_joins (some f) alias = label_joins f.labels alias

-- Several conditions as one in parentheses, or none.
unfoldable pub group_of : Text → List Text → List Arg → Clauses
group_of sep [] args = no_clauses
group_of sep (w ∷ ws) args = clause (concat (codes "(" ∷ join (w ∷ ws) sep ∷ codes ")" ∷ [])) args

unfoldable pub group : Text → Clauses → Clauses
group sep a = group_of sep a.clauses a.args

-- `orGroups`: the conditions of each filter, joined by AND; a filter without any adds nothing.
unfoldable pub or_groups : Codec → Text → List ObjectFilter → Text → Clauses
or_groups c dialect [] alias = no_clauses
or_groups c dialect (f ∷ fs) alias =
    group (codes " AND ") (build_object_filter c dialect f alias) ⊕ or_groups c dialect fs alias

unfoldable pub filter_clauses : Codec → Text → Option QueryFilter → Text → Clauses
filter_clauses c dialect none alias = no_clauses
filter_clauses c dialect (some f) alias = group (codes " OR ") (or_groups c dialect f.objects alias)

-- `buildRootClauses`: the conditions with their arguments, and the joins.
unfoldable pub build_root_clauses : Codec → Text → QuerySpec → Text → Clauses
build_root_clauses c dialect q alias =
    cluster_clauses c dialect q.cluster alias ⊕ filter_clauses c dialect q.filter alias

unfoldable pub root_joins : QuerySpec → Text → List Text
root_joins q alias = cluster_joins q.cluster alias
