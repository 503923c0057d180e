-- ===== src/Engine/Validate.antt =====
-- internal/engine/validate.go. `Validate` fills in defaults in place and returns an error or nil:
-- here it returns the error and the query as it stands then.
pub mod Bounds
use kube_graphql.Common.{
  ℕ, zero, suc, ◌+◌, Text, codes, text_eq, is_empty, ℤ, pos, leb_ℤ, ltb_ℤ, Bool, true, false, not,
  ◌&&◌, ◌||◌, Option, none, some, List, [], ◌∷◌, if◌then◌else◌, lookup, ltb,
}
use kube_graphql.Api.{
  PageSpec, OrderSpec, sort_asc, sort_desc, ObjectsSpec, absent, shape, RelationMap, relation,
  RelationSpec, spec, QuerySpec,
}

abbrev pub default_limit : ℤ
default_limit = pos 100

abbrev pub max_limit : ℤ
max_limit = pos 10000

abbrev pub default_max_depth : ℤ
default_max_depth = pos 10

abbrev pub hard_max_depth : ℤ
hard_max_depth = pos 20

abbrev pub max_total_rows : ℕ
max_total_rows = 10000

abbrev pub max_relation_blocks : ℕ
max_relation_blocks = 10

-- The map from a sort field to its column.
abbrev pub valid_sort_fields : List (Text × Text)
valid_sort_fields =
    (codes "name", codes "obj.name")
    ∷ (codes "namespace", codes "obj.namespace")
    ∷ (codes "kind", codes "obj.kind")
    ∷ (codes "apiGroup", codes "obj.api_group")
    ∷ (codes "cluster", codes "obj.cluster")
    ∷ (codes "creationTimestamp", codes "obj.creation_ts")
    ∷ []

-- `ValidSortFields[field]`.
unfoldable pub sort_column : Text → Option Text
sort_column field = lookup field valid_sort_fields

pub data ValidationError : Type 0 where
  limit_exceeds max_depth_exceeds : ℤ → ValidationError
  unsupported_sort_field invalid_sort_direction : Text → ValidationError
  negative_page_first : ValidationError
  too_many_relations : ℕ → ValidationError

-- The number of entries of a map of relations.
unfoldable pub relation_count : RelationMap → ℕ
relation_count RelationMap.end = 0
relation_count (relation name r m) = suc (relation_count m)

-- `countRelationBlocks`: the relations of a map, and those below each.
unfoldable mutual
  pub count_relation_blocks : ObjectsSpec → ℕ
  count_relation_blocks absent = 0
  count_relation_blocks (shape id cluster path object m) = relation_count m + count_below m

  pub count_below : RelationMap → ℕ
  count_below RelationMap.end = 0
  count_below (relation name r m) = count_of r + count_below m

  pub count_of : RelationSpec → ℕ
  count_of (spec limit filters objects) = count_relation_blocks objects

-- The negation of `o.Direction != "" && o.Direction != SortAsc && o.Direction != SortDesc`.
unfoldable pub is_direction : Text → Bool
is_direction d = not (not (is_empty d) && not (text_eq d sort_asc) && not (text_eq d sort_desc))

-- The loop over the order fields.
unfoldable pub check_order : List OrderSpec → Option ValidationError
check_order [] = none
check_order (o ∷ os) = elim (sort_column o.field) [
  | none ↦ some (unsupported_sort_field o.field)
  | some _ ↦
      if is_direction o.direction then check_order os else some (invalid_sort_direction o.direction)
]

unfoldable pub check_page : Option PageSpec → Option ValidationError
check_page none = none
check_page (some p) = if ltb_ℤ p.first (pos 0) then some negative_page_first else none

unfoldable pub check_relations : ObjectsSpec → Option ValidationError
check_relations absent = none
check_relations (shape id cluster path object m) =
    let count = count_relation_blocks (shape id cluster path object m) in
    if ltb max_relation_blocks count then some (too_many_relations count) else none

-- The first error of two checks in a row.
infixl 30 ◌or_else◌
abbrev pub ◌or_else◌ : Option ValidationError → Option ValidationError → Option ValidationError
none or_else e = e
some e or_else _ = some e

unfoldable pub with_limit : QuerySpec → QuerySpec
with_limit q = if leb_ℤ q.limit (pos 0) then record q { limit = default_limit } else q

unfoldable pub with_max_depth : QuerySpec → QuerySpec
with_max_depth q =
    if leb_ℤ q.max_depth (pos 0) then record q { max_depth = default_max_depth } else q

-- The checks behind the two limits.
unfoldable pub check_rest : QuerySpec → Option ValidationError
check_rest q = check_order q.order or_else check_page q.page or_else check_relations q.objects

-- `Validate`.
unfoldable pub validate : QuerySpec → Option ValidationError × QuerySpec
unfolding with_limit with_max_depth
validate q =
    let q₁ = with_limit q in
    let q₂ = with_max_depth q₁ in
    if ltb_ℤ max_limit q₁.limit
    then (some (limit_exceeds q₁.limit), q₁)
    else if ltb_ℤ hard_max_depth q₂.max_depth
    then (some (max_depth_exceeds q₂.max_depth), q₂)
    else (check_rest q₂, q₂)
