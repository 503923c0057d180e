-- ===== src/Engine/Relational.antt =====
-- generateWithRelations and Generate of internal/engine/generator.go: the loop over the queue of
-- relations, and the query made of what it collects.
pub mod Queue
pub mod Visit
pub mod Loop
pub mod Nodes
pub mod Bounds
pub mod Success
pub mod Placeholders
pub mod Rounds
pub mod Deterministic
pub mod Arguments
use kube_graphql.Common.{
  if◌then◌else◌, ℤ, pos, ltb_ℤ, format, Text, codes, is_empty, join, concat, replace_all, ℕ, zero,
  suc, Bool, true, false, Option, none, some, List, [], ◌∷◌, ◌++◌,
}
use kube_graphql.Api.{ObjectsSpec, absent, shape, RelationMap, relation, QuerySpec}
use kube_graphql.Engine.Codec.{Codec}
use kube_graphql.Engine.Order.{build_order_by, build_cursor_filter}
use kube_graphql.Engine.Projection.{build_projection}
use kube_graphql.Engine.Relational.Queue.{Node, sorted_nodes}
use kube_graphql.Engine.Relational.Visit.{root_alias, root_path, Collected, visit}
use kube_graphql.Engine.Root.{
  GeneratedQuery, build_select_cols, spaced, where_text, cursor_args, offset_text, count_text,
  generate_root_only,
}
use kube_graphql.Engine.Root.Conditions.{build_root_clauses, root_joins}
use kube_graphql.Engine.Validate.{count_relation_blocks}

-- How the loop ends; the sources have no fuel.
pub data Outcome : Type 0 where
  finished : Collected → Outcome
  failed out_of_fuel : Outcome

-- `for len(queue) > 0`: a node below the greatest depth is dropped.
module _ (c : Codec) (dialect : Text) (max_depth : ℤ) where
  unfoldable pub drain : ℕ → List Node → Collected → Outcome
  drain fuel [] s = finished s
  drain zero (n ∷ queue) s = out_of_fuel
  drain (suc fuel) (n ∷ queue) s =
      let skipped = drain fuel queue s in
      if ltb_ℤ max_depth (pos n.level) then skipped else elim (visit c dialect max_depth n s) [
        | none ↦ failed
        | some (s', children) ↦ drain fuel (queue ++ children) s'
      ]

-- The order of the root rows, with their alias.
unfoldable pub root_order : QuerySpec → Text
root_order q = replace_all (codes "obj.") (root_alias ++ codes ".") (build_order_by q)

-- `rootWhereAll`: the cursor's condition behind the others.
unfoldable pub root_conditions : List Text → Text → List Text
root_conditions ws cursor = if is_empty cursor then ws else ws ++ cursor ∷ []

-- `rootInnerSB`.
unfoldable pub root_inner : QuerySpec → List Text → Text → Text
root_inner q ws cursor = concat (
    codes "SELECT * FROM objects "
    ∷ root_alias
    ∷ spaced (root_joins q root_alias)
    ∷ where_text (root_conditions ws cursor)
    ∷ codes " ORDER BY "
    ∷ root_order q
    ∷ codes " LIMIT "
    ∷ format q.limit
    ∷ offset_text q.page
    ∷ [])

-- The WITH clause: the root rows, and the CTEs of transitive relations.
unfoldable pub with_clause : Text → List Text → Text
with_clause inner [] = concat (codes "WITH root_objects AS (" ∷ inner ∷ codes ") " ∷ [])
with_clause inner (cte ∷ ctes) = concat (
    codes "WITH RECURSIVE root_objects AS ("
    ∷ inner
    ∷ codes "), "
    ∷ join (cte ∷ ctes) (codes ", ")
    ∷ codes " "
    ∷ [])

-- The SELECT over the root rows.
unfoldable pub root_select : Text → Text
root_select projection = concat (
    codes "SELECT "
    ∷ build_select_cols root_alias projection root_path false
    ∷ codes ", 0 AS level, '' AS relation_name FROM root_objects "
    ∷ root_alias
    ∷ [])

unfoldable pub union_all : List Text → Text
union_all [] = []
union_all (q ∷ qs) = codes " UNION ALL " ++ (q ++ union_all qs)

-- What the loop starts with: the arguments of the root query.
unfoldable pub started : Codec → Text → QuerySpec → Collected
started c dialect q = record {
  ctes = [];
  subqueries = [];
  args = (build_root_clauses c dialect q root_alias).args ++ cursor_args (build_cursor_filter c q);
  counter = 1;
}

-- The query with what the loop has collected.
unfoldable pub relational_query : Codec → Text → QuerySpec → Text → Collected → GeneratedQuery
relational_query c dialect q projection s =
    let root = build_root_clauses c dialect q root_alias in
    let cursor = build_cursor_filter c q in
    record {
      sql = concat (
          with_clause (root_inner q root.clauses cursor.0) s.ctes
          ∷ root_select projection
          ∷ union_all s.subqueries
          ∷ codes " ORDER BY path"
          ∷ []);
      args = s.args;
      count_sql = count_text root_alias (root_joins q root_alias) root.clauses;
      count_args = root.args;
      has_relations = true;
    }

-- The loop from the root's relations.
unfoldable pub collect_relations : Codec → Text → QuerySpec → ℕ → Outcome
collect_relations c dialect q fuel =
    drain c dialect q.max_depth fuel (sorted_nodes 1 [] q.objects) (started c dialect q)

-- The fuel: the relations of the query, since each is queued at most once.
unfoldable pub generate_fuel : QuerySpec → ℕ
generate_fuel q = count_relation_blocks q.objects

pub data Generated : Type 0 where
  generated : GeneratedQuery → Generated
  generator_error out_of_steps : Generated

unfoldable pub finish : Codec → Text → QuerySpec → Text → Outcome → Generated
finish c dialect q projection (finished s) = generated (relational_query c dialect q projection s)
finish c dialect q projection failed = generator_error
finish c dialect q projection out_of_fuel = out_of_steps

-- `generateWithRelations`.
unfoldable pub generate_with_relations : Codec → Text → QuerySpec → Generated
generate_with_relations c dialect q = elim (build_projection c dialect q.objects root_alias) [
  | none ↦ generator_error
  | some projection ↦
      finish c dialect q projection (collect_relations c dialect q (generate_fuel q))
]

-- `spec.Objects != nil && len(spec.Objects.Relations) > 0`.
unfoldable pub asks_relations : ObjectsSpec → Bool
asks_relations absent = false
asks_relations (shape id cluster path json RelationMap.end) = false
asks_relations (shape id cluster path json (relation name r m)) = true

unfoldable pub of_root : Option GeneratedQuery → Generated
of_root none = generator_error
of_root (some g) = generated g

-- `Generate`.
unfoldable pub generate : Codec → Text → QuerySpec → Generated
generate c dialect q =
    if asks_relations q.objects
    then generate_with_relations c dialect q
    else of_root (generate_root_only c dialect q)
