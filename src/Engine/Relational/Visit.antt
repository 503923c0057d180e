-- ===== src/Engine/Relational/Visit.antt =====
-- The body of the loop of generateWithRelations in internal/engine/generator.go: what one relation
-- adds to the query. An error of a projection or of a transitive relation is `none`.
use mathlib.Core.Option
use kube_graphql.Common.{
  if◌then◌else◌, ◌>>=◌, ℤ, Text, codes, concat, decimal, replace_all, ℕ, suc, true, false, Option,
  some, List, [], ◌∷◌, ◌++◌,
}
use kube_graphql.Api.{
  ObjectFilter, ObjectsSpec, absent, shape, RelationMap, relation, RelationSpec, spec,
}
use kube_graphql.Engine.Codec.{Codec}
use kube_graphql.Engine.Filter.{build_object_filter_with_rt}
use kube_graphql.Engine.Projection.{build_projection}
use kube_graphql.Engine.Refs.{new_ref_path_registry}
use kube_graphql.Engine.Relational.Queue.{Node, sorted_nodes}
use kube_graphql.Engine.Relations.{is_transitive, base_relation, RelationJoin}
use kube_graphql.Engine.Relations.Joins.{build_relation_join}
use kube_graphql.Engine.Root.{build_path_expr, build_select_cols, spaced, where_text}
use kube_graphql.Engine.Sql.{Arg, Clauses, no_clauses, ◌⊕◌}
use kube_graphql.Engine.Transitive.{
  Ancestor, TransitiveResult, TransitiveRequest, path_segment, path_through, ancestor_joins,
  level_columns, limited, build_transitive_cte,
}

abbrev pub root_alias : Text
root_alias = codes "l0"

abbrev pub root_path : Text
root_path = build_path_expr root_alias

-- The variables that the loop changes: extraCTEs, subqueries, allArgs and levelCounter.
pub record Collected : Type 0 where
  pub ctes : List Text
  pub subqueries : List Text
  pub args : List Arg
  pub counter : ℕ

unfoldable pub add_subquery : Text → List Arg → Collected → Collected
add_subquery sql args s = record s { subqueries = s.subqueries ++ sql ∷ []; args = s.args ++ args }

-- `fmt.Sprintf("l%d", n)` and `fmt.Sprintf("rt%d", n)`.
unfoldable pub level_alias : ℕ → Text
level_alias n = codes "l" ++ decimal n

unfoldable pub level_rt : ℕ → Text
level_rt n = codes "rt" ++ decimal n

unfoldable pub cte_name_of : Text → ℕ → Text
cte_name_of base n =
    concat (codes "trans_" ∷ replace_all (codes "-") (codes "_") base ∷ codes "_" ∷ decimal n ∷ [])

-- The alias of the last ancestor, or of the root.
unfoldable pub parent_alias_of : List Ancestor → Text
parent_alias_of [] = root_alias
parent_alias_of (a ∷ []) = a.alias
parent_alias_of (a ∷ b ∷ rest) = parent_alias_of (b ∷ rest)

unfoldable pub spec_limit : RelationSpec → ℤ
spec_limit (spec limit filters objects) = limit

unfoldable pub spec_filters : RelationSpec → List ObjectFilter
spec_filters (spec limit filters objects) = filters

unfoldable pub spec_objects : RelationSpec → ObjectsSpec
spec_objects (spec limit filters objects) = objects

unfoldable pub relations_of : ObjectsSpec → RelationMap
relations_of absent = RelationMap.end
relations_of (shape id cluster path json m) = m

unfoldable pub add_transitive : TransitiveResult → Collected → Collected
add_transitive t s = record s {
  ctes = s.ctes ++ t.cte_sql ∷ [];
  subqueries = s.subqueries ++ t.select_sql ∷ [];
  args = s.args ++ t.select_args;
}

unfoldable pub next_level : Collected → Collected
next_level s = record s { counter = suc s.counter }

-- The subquery of one relation: its columns, the tables before its join, and its join.
unfoldable pub relation_select : Text → ℕ → Text → Text → Text → Text → RelationJoin → Text
relation_select alias level name projection path source joined = concat (
    codes "SELECT "
    ∷ build_select_cols alias projection path false
    ∷ level_columns level name
    ∷ codes " FROM "
    ∷ source
    ∷ codes " "
    ∷ joined.join_clause
    ∷ where_text joined.extra.clauses
    ∷ [])

-- The arguments of buildTransitiveCTE for a node.
unfoldable pub transitive_request : ℤ → Node → ℕ → TransitiveRequest
transitive_request max_depth node n = record {
  cte_name = cte_name_of (base_relation node.relation_name) n;
  root_alias = root_alias;
  root_path = root_path;
  parent_alias = parent_alias_of node.ancestors;
  ancestors = node.ancestors;
  limit = spec_limit node.relation_spec;
  filters = spec_filters node.relation_spec;
  objects = spec_objects node.relation_spec;
  max_depth = max_depth;
  level_num = node.level;
  relation_name = node.relation_name;
}

-- The root rows with the joins of the ancestors.
unfoldable pub ancestor_source : List Ancestor → Text
ancestor_source ancestors =
    concat (codes "root_objects " ∷ root_alias ∷ spaced (ancestor_joins ancestors) ∷ [])

module _ (c : Codec) (dialect : Text) where
  -- The conditions of a relation's filters.
  unfoldable pub filter_conditions : List ObjectFilter → Text → Text → Clauses
  filter_conditions [] alias rt = no_clauses
  filter_conditions (f ∷ fs) alias rt =
      build_object_filter_with_rt c dialect f alias rt ⊕ filter_conditions fs alias rt

  -- The join of a relation, and its conditions with those of the filters.
  unfoldable pub relation_join : Text → Text → Text → ℕ → RelationSpec → RelationJoin
  relation_join name parent_alias child_alias n r =
      let joined = build_relation_join (base_relation name) (record {
        parent_alias = parent_alias;
        child_alias = child_alias;
        dialect = dialect;
        filters = spec_filters r;
        ref_registry = some new_ref_path_registry;
      }) in
      record joined {
        extra = joined.extra ⊕ filter_conditions (spec_filters r) child_alias (level_rt n);
      }

  -- The subquery of a relation below a transitive one: it joins the CTE. Its limit and its own
  -- relations are not read.
  unfoldable pub sub_subquery : Text → ℕ → ℕ → Text → RelationSpec → Text → Text
  sub_subquery cte level n name r projection =
      let alias = level_alias n in
      relation_select alias level name projection ((cte ++ codes ".path") ++ path_segment alias) cte
        (relation_join name cte alias n r)

  unfoldable pub visit_sub_relation :
      Text → ℕ → ℕ → Text → RelationSpec → Collected → Option Collected
  visit_sub_relation cte level n name r s =
      Option.map
        (λ projection.
          add_subquery (sub_subquery cte level n name r projection)
            (relation_join name cte (level_alias n) n r).extra.args s)
        (build_projection c dialect (spec_objects r) (level_alias n))

  -- The relations below a transitive one, in the order of the map, but for transitive ones.
  unfoldable pub visit_sub_relations : Text → ℕ → ℕ → RelationMap → Collected → Option Collected
  visit_sub_relations cte level n RelationMap.end s = some s
  visit_sub_relations cte level n (relation name r m) s = elim (is_transitive name) [
    | true ↦ visit_sub_relations cte level n m s
    | false ↦ visit_sub_relation cte level n name r s >>= visit_sub_relations cte level n m
  ]

  -- A transitive relation: its CTE, the query that reads it, and the relations below.
  unfoldable pub visit_transitive : ℤ → Node → Collected → Option Collected
  visit_transitive max_depth node s =
      let request = transitive_request max_depth node s.counter in
      do
        t ← build_transitive_cte c (base_relation node.relation_name) dialect request
        s' ←
            visit_sub_relations request.cte_name (suc node.level) (suc s.counter)
              (relations_of (spec_objects node.relation_spec)) (add_transitive t s)
        some (next_level s')

  -- The join of a node's relation.
  unfoldable pub node_join : Node → ℕ → RelationJoin
  node_join node n =
      relation_join node.relation_name (parent_alias_of node.ancestors) (level_alias n) n
        node.relation_spec

  -- The subquery of a relation that is not transitive.
  unfoldable pub direct_subquery : Node → ℕ → Text → Text
  direct_subquery node n projection = limited (spec_limit node.relation_spec) (
      relation_select (level_alias n) node.level node.relation_name projection
        (path_through root_path node.ancestors ++ path_segment (level_alias n))
        (ancestor_source node.ancestors) (node_join node n))

  -- `currentAncestors`.
  unfoldable pub own_ancestors : Node → ℕ → List Ancestor
  own_ancestors node n =
      node.ancestors
      ++ record { alias = level_alias n; join_clause = (node_join node n).join_clause } ∷ []

  -- Another relation: its subquery, and the nodes of the relations below.
  unfoldable pub visit_direct : Node → Collected → Option (Collected × List Node)
  visit_direct node s = do
    projection ←
        build_projection c dialect (spec_objects node.relation_spec) (level_alias s.counter)
    some (
      next_level (
          add_subquery (direct_subquery node s.counter projection)
            (node_join node s.counter).extra.args s),
      sorted_nodes (suc node.level) (own_ancestors node s.counter)
          (spec_objects node.relation_spec),
    )

  -- One round of the loop for a node within the depth.
  unfoldable pub visit : ℤ → Node → Collected → Option (Collected × List Node)
  visit max_depth node s =
      if is_transitive node.relation_name
      then Option.map (λ s'. (s', [])) (visit_transitive max_depth node s)
      else visit_direct node s
