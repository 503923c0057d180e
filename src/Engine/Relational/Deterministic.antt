-- ===== src/Engine/Relational/Deterministic.antt =====
-- Generate of internal/engine/generator.go does not depend on the order in which a range visits
-- the map of the root's relations.
use mathlib.Core.List.{Permᴰ, Pairwise}
use mathlib.Core.List.Permᴰ
use kube_graphql.Common.{
  Option-cases, Text, ◌≡◌, refl, sym, ap, ◌∙◌, inl, inr, Bool, Option, none, some, [],
}
use kube_graphql.Api.{ObjectsSpec, shape, RelationMap, relation, QuerySpec}
use kube_graphql.Engine.Codec.{Codec}
use kube_graphql.Engine.Order.{build_order_by, build_cursor_filter}
use kube_graphql.Engine.Projection.{build_projection}
use kube_graphql.Engine.Relational.{
  Outcome, finished, failed, out_of_fuel, root_order, root_inner, started, relational_query,
  collect_relations, generate_fuel, generated, finish, generate_with_relations, asks_relations,
  generate,
}
use kube_graphql.Engine.Relational.Loop.{queue_weight, sorted_nodes-weight}
use kube_graphql.Engine.Relational.Queue.{sorted_nodes}
use kube_graphql.Engine.Relational.Queue.Order.{entries, DifferentKeys, sort_nodes-entries}
use kube_graphql.Engine.Relational.Visit.{root_alias, Collected}
use kube_graphql.Engine.Root.Conditions.{build_root_clauses, root_joins}
use kube_graphql.Engine.Validate.{count_relation_blocks}

abbrev pub with_objects : QuerySpec → ObjectsSpec → QuerySpec
with_objects q o = record q { objects = o }

build_projection-relations :
    (c : Codec) (dialect : Text) (id cluster path : Bool) (json : Option Text) (m m' : RelationMap)
    (alias : Text)
    → build_projection c dialect (shape id cluster path json m) alias
      ≡ build_projection c dialect (shape id cluster path json m') alias
unfolding build_projection
build_projection-relations c dialect id cluster path none m m' alias = refl
build_projection-relations c dialect id cluster path (some raw) m m' alias = refl

-- The query but for its relations.
relational_query-objects :
    (c : Codec) (dialect : Text) (q : QuerySpec) (o o' : ObjectsSpec) (projection : Text)
    (s : Collected)
    → relational_query c dialect (with_objects q o) projection s
      ≡ relational_query c dialect (with_objects q o') projection s
unfolding relational_query root_inner root_order root_joins build_root_clauses build_order_by
    build_cursor_filter
relational_query-objects c dialect q o o' projection s = refl

finish-objects :
    (c : Codec) (dialect : Text) (q : QuerySpec) (o o' : ObjectsSpec) (projection : Text)
    (outcome : Outcome)
    → finish c dialect (with_objects q o) projection outcome
      ≡ finish c dialect (with_objects q o') projection outcome
unfolding finish
finish-objects c dialect q o o' projection (finished s) =
    ap generated (relational_query-objects c dialect q o o' projection s)
finish-objects c dialect q o o' projection failed = refl
finish-objects c dialect q o o' projection out_of_fuel = refl

drained-objects :
    (c : Codec) (dialect : Text) (q : QuerySpec) (o o' : ObjectsSpec)
    → sorted_nodes 1 [] o ≡ sorted_nodes 1 [] o'
    → collect_relations c dialect (with_objects q o) (generate_fuel (with_objects q o))
      ≡ collect_relations c dialect (with_objects q o') (generate_fuel (with_objects q o'))
unfolding collect_relations generate_fuel started build_root_clauses build_cursor_filter
drained-objects c dialect q o o' e =
    let weight : count_relation_blocks o ≡ count_relation_blocks o' =
      sym (sorted_nodes-weight 1 [] o) ∙ ap queue_weight e ∙ sorted_nodes-weight 1 [] o' in
    cc (e, weight)

generate_with_relations-order :
    (c : Codec) (dialect : Text) (q : QuerySpec) (id cluster path : Bool) (json : Option Text)
    (m m' : RelationMap)
    → Pairwise DifferentKeys (entries m)
    → Permᴰ (entries m) (entries m')
    → generate_with_relations c dialect (with_objects q (shape id cluster path json m))
      ≡ generate_with_relations c dialect (with_objects q (shape id cluster path json m'))
unfolding generate_with_relations
generate_with_relations-order c dialect q id cluster path json m m' h d =
    let o = shape id cluster path json m in
    let o' = shape id cluster path json m' in
    let queued : sorted_nodes 1 [] o ≡ sorted_nodes 1 [] o' =
      unfold sorted_nodes in sort_nodes-entries 1 [] m m' h d in
    let drained = drained-objects c dialect q o o' queued in
    let projected = build_projection-relations c dialect id cluster path json m m' root_alias in
    elim (Option-cases (build_projection c dialect o' root_alias)) [
      | inl e ↦ rw (generate_with_relations, projected ∙ e, e) refl
      | inr (projection, e) ↦
          rw (generate_with_relations, projected ∙ e, e)
            (finish-objects c dialect q o o' projection _
              ∙ ap (finish c dialect (with_objects q o') projection) drained)
    ]

-- For two orders of the map of the root's relations, whose keys differ, Generate returns the same.
pub generate-order :
    (c : Codec) (dialect : Text) (q : QuerySpec) (id cluster path : Bool) (json : Option Text)
    (m m' : RelationMap)
    → Pairwise DifferentKeys (entries m)
    → Permᴰ (entries m) (entries m')
    → generate c dialect (with_objects q (shape id cluster path json m))
      ≡ generate c dialect (with_objects q (shape id cluster path json m'))
unfolding generate asks_relations entries
generate-order c dialect q id cluster path json RelationMap.end RelationMap.end h d = refl
generate-order c dialect q id cluster path json RelationMap.end (relation name r m) h d =
    absurd (cc (Permᴰ.length-eq d))
generate-order c dialect q id cluster path json (relation name r m) RelationMap.end h d =
    absurd (cc (Permᴰ.length-eq d))
generate-order c dialect q id cluster path json (relation name r m) (relation name' r' m') h d =
    generate_with_relations-order c dialect q id cluster path json (relation name r m)
      (relation name' r' m') h d
