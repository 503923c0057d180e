-- ===== src/Engine/Relations/Joins.antt =====
-- The joins of internal/engine/relations.go for selectors, events, links and groups, and
-- buildRelationJoin, which tells the types of relations apart.
use kube_graphql.Common.{if◌then◌else◌, Text, codes, text_eq, [], ◌∷◌}
use kube_graphql.Engine.Relations.{
  rel_owners, rel_descendants, rel_references, rel_selects, rel_selected_by, rel_events, rel_linked,
  rel_grouped, RelationContext, RelationJoin, empty_join, join_with, build_descendant_join,
  build_owner_join, build_reference_join,
}

abbrev pub selector_postgres : Text
selector_postgres =
    codes
      "JOIN objects %s ON %s.cluster = %s.cluster AND %s.namespace = %s.namespace AND %s.labels @> (%s.object->'spec'->'selector'->'matchLabels') AND %s.object->'spec'->'selector'->'matchLabels' IS NOT NULL AND %s.id != %s.id"

abbrev pub selector_sqlite : Text
selector_sqlite =
    codes
      "JOIN objects %s ON %s.cluster = %s.cluster AND %s.namespace = %s.namespace AND json_extract(%s.object, '$.spec.selector.matchLabels') IS NOT NULL AND %s.id != %s.id AND NOT EXISTS (SELECT 1 FROM json_each(json_extract(%s.object, '$.spec.selector.matchLabels')) sel WHERE json_extract(%s.labels, '$.' || sel.key) IS NULL OR json_extract(%s.labels, '$.' || sel.key) != sel.value)"

-- `buildSelectsJoin`.
unfoldable pub build_selects_join : RelationContext → RelationJoin
build_selects_join ctx =
    let c = ctx.child_alias in
    let p = ctx.parent_alias in
    join_with ctx selector_postgres selector_sqlite (c ∷ c ∷ p ∷ c ∷ p ∷ c ∷ p ∷ p ∷ c ∷ p ∷ [])
      (c ∷ c ∷ p ∷ c ∷ p ∷ p ∷ c ∷ p ∷ p ∷ c ∷ c ∷ [])

-- `buildSelectedByJoin`.
unfoldable pub build_selected_by_join : RelationContext → RelationJoin
build_selected_by_join ctx =
    let c = ctx.child_alias in
    let p = ctx.parent_alias in
    join_with ctx selector_postgres selector_sqlite (c ∷ c ∷ p ∷ c ∷ p ∷ p ∷ c ∷ c ∷ c ∷ p ∷ [])
      (c ∷ c ∷ p ∷ c ∷ p ∷ c ∷ c ∷ p ∷ c ∷ p ∷ p ∷ [])

-- `buildEventsJoin`.
unfoldable pub build_events_join : RelationContext → RelationJoin
build_events_join ctx =
    let c = ctx.child_alias in
    let p = ctx.parent_alias in
    join_with ctx
      (codes
        "JOIN objects %s ON %s.cluster = %s.cluster AND %s.kind = 'Event' AND %s.object->'involvedObject'->>'uid' = %s.uid")
      (codes
        "JOIN objects %s ON %s.cluster = %s.cluster AND %s.kind = 'Event' AND json_extract(%s.object, '$.involvedObject.uid') = %s.uid")
      (c ∷ c ∷ p ∷ c ∷ c ∷ p ∷ []) (c ∷ c ∷ p ∷ c ∷ c ∷ p ∷ [])

-- `buildLinkedJoin`.
unfoldable pub build_linked_join : RelationContext → RelationJoin
build_linked_join ctx =
    let c = ctx.child_alias in
    let p = ctx.parent_alias in
    join_with ctx
      (codes
        "JOIN LATERAL jsonb_array_elements((%s.object->'metadata'->'annotations'->>'kuery.io/relates-to')::jsonb) AS ref ON true JOIN objects %s ON %s.cluster = COALESCE(ref->>'cluster', %s.cluster) AND %s.api_group = COALESCE(ref->>'group', '') AND %s.kind = ref->>'kind' AND %s.namespace = COALESCE(ref->>'namespace', '') AND %s.name = ref->>'name'")
      (codes
        "JOIN json_each(json_extract(%s.annotations, '$.\"kuery.io/relates-to\"')) ref ON 1=1 JOIN objects %s ON %s.cluster = COALESCE(json_extract(ref.value, '$.cluster'), %s.cluster) AND %s.api_group = COALESCE(json_extract(ref.value, '$.group'), '') AND %s.kind = json_extract(ref.value, '$.kind') AND %s.namespace = COALESCE(json_extract(ref.value, '$.namespace'), '') AND %s.name = json_extract(ref.value, '$.name')")
      (p ∷ c ∷ c ∷ p ∷ c ∷ c ∷ c ∷ c ∷ []) (p ∷ c ∷ c ∷ p ∷ c ∷ c ∷ c ∷ c ∷ [])

-- `buildGroupedJoin`.
unfoldable pub build_grouped_join : RelationContext → RelationJoin
build_grouped_join ctx =
    let c = ctx.child_alias in
    let p = ctx.parent_alias in
    join_with ctx
      (codes
        "JOIN objects %s ON %s.labels->>'kuery.io/group' = %s.labels->>'kuery.io/group' AND %s.id != %s.id AND %s.labels->>'kuery.io/group' IS NOT NULL")
      (codes
        "JOIN objects %s ON json_extract(%s.labels, '$.\"kuery.io/group\"') = json_extract(%s.labels, '$.\"kuery.io/group\"') AND %s.id != %s.id AND json_extract(%s.labels, '$.\"kuery.io/group\"') IS NOT NULL")
      (c ∷ c ∷ p ∷ c ∷ p ∷ p ∷ []) (c ∷ c ∷ p ∷ c ∷ p ∷ p ∷ [])

-- `buildRelationJoin`.
unfoldable pub build_relation_join : Text → RelationContext → RelationJoin
build_relation_join relation_type ctx =
    if text_eq relation_type rel_descendants
    then build_descendant_join ctx
    else if text_eq relation_type rel_owners
    then build_owner_join ctx
    else if text_eq relation_type rel_references
    then build_reference_join ctx
    else if text_eq relation_type rel_selects
    then build_selects_join ctx
    else if text_eq relation_type rel_selected_by
    then build_selected_by_join ctx
    else if text_eq relation_type rel_events
    then build_events_join ctx
    else if text_eq relation_type rel_linked
    then build_linked_join ctx
    else if text_eq relation_type rel_grouped
    then build_grouped_join ctx
    else empty_join ctx
