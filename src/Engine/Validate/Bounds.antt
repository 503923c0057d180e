-- ===== src/Engine/Validate/Bounds.antt =====
-- Validate: the queries that it accepts, and the query behind it.
use kube_graphql.Common.{
  ◌≤◌, ◌≡◌, ◌↔◌, ◌⊎◌, refl, true, Option, none, some, pos, ◌≤ℤ◌, arith, Text, List, All, [], ◌∷◌,
  text_eq, is_empty,
}
use kube_graphql.Api.{
  QuerySpec, OrderSpec, PageSpec, sort_asc, sort_desc, absent, shape, ObjectsSpec,
}
use kube_graphql.Engine.Validate.{
  sort_column, is_direction, check_order, check_page, check_relations, check_rest, with_limit,
  with_max_depth, validate, count_relation_blocks, max_relation_blocks, max_limit, hard_max_depth,
}

-- An order whose field has a column and whose direction is empty or one of the two constants.
abbrev pub IsSortKey : OrderSpec → Type 0
IsSortKey o =
    ((c : Text) × (sort_column o.field ≡ some c))
    × ((is_empty o.direction ≡ true)
        ⊎ ((text_eq o.direction sort_asc ≡ true) ⊎ (text_eq o.direction sort_desc ≡ true)))

abbrev pub IsPage : Option PageSpec → Type 0
IsPage none = Unit
IsPage (some p) = pos 0 ≤ℤ p.first

-- The parts of a query that validation leaves as they are.
pub record IsWellFormed (q : QuerySpec) : Type 0 where
  pub order : All IsSortKey q.order
  pub page : IsPage q.page
  pub blocks : count_relation_blocks q.objects ≤ max_relation_blocks

-- The queries that validation accepts: no limit above its maximum, and the rest well-formed.
pub record IsAcceptable (q : QuerySpec) : Type 0 where
  pub limit : q.limit ≤ℤ max_limit
  pub max_depth : q.max_depth ≤ℤ hard_max_depth
  pub rest : IsWellFormed q

-- What the SQL generator relies on.
pub record IsValidated (q : QuerySpec) : Type 0 where
  pub limit_low : pos 1 ≤ℤ q.limit
  pub limit_high : q.limit ≤ℤ max_limit
  pub depth_low : pos 1 ≤ℤ q.max_depth
  pub depth_high : q.max_depth ≤ℤ hard_max_depth
  pub rest : IsWellFormed q

is_direction_iff :
    (d : Text)
    → (is_direction d ≡ true)
      ↔ ((is_empty d ≡ true) ⊎ ((text_eq d sort_asc ≡ true) ⊎ (text_eq d sort_desc ≡ true)))
unfolding is_direction
is_direction_iff d = ground arith

check_order_sound : (os : List OrderSpec) → check_order os ≡ none → All IsSortKey os
unfolding check_order
check_order_sound [] h = tt
check_order_sound (o ∷ os) h = ground (arith, is_direction_iff o.direction, check_order_sound os)

check_order_complete : (os : List OrderSpec) → All IsSortKey os → check_order os ≡ none
unfolding check_order
check_order_complete [] h = refl
check_order_complete (o ∷ os) h =
    ground (arith, is_direction_iff o.direction, check_order_complete os h.1)

check_page_iff : (p : Option PageSpec) → (check_page p ≡ none) ↔ IsPage p
unfolding check_page
check_page_iff none = ground arith
check_page_iff (some p) = ground arith

check_relations_iff :
    (o : ObjectsSpec) → (check_relations o ≡ none) ↔ (count_relation_blocks o ≤ max_relation_blocks)
unfolding check_relations
check_relations_iff absent = unfold count_relation_blocks in ground arith
check_relations_iff (shape id cluster path object m) = ground arith

check_rest_iff : (q : QuerySpec) → (check_rest q ≡ none) ↔ IsWellFormed q
unfolding check_rest
check_rest_iff q = ground (
  arith,
  check_order_sound q.order,
  check_order_complete q.order,
  check_page_iff q.page,
  check_relations_iff q.objects,
)

-- Validation accepts a query exactly when its limit is at most 10000, its depth at most 20, each
-- order field has a column and a known or empty direction, the page offset is not negative, and
-- it has at most ten relation blocks.
pub validate_accepts_iff : (q : QuerySpec) → ((validate q).0 ≡ none) ↔ IsAcceptable q
unfolding validate
validate_accepts_iff q = ground (
  arith,
  check_rest_iff q,
  check_rest_iff (with_limit q),
  check_rest_iff (with_max_depth (with_limit q)),
)

-- A query that validation accepts leaves it with a limit from 1 to 10000, a depth from 1 to 20,
-- and a well-formed rest.
pub validate-IsValidated : (q : QuerySpec) → (validate q).0 ≡ none → IsValidated (validate q).1
unfolding validate
validate-IsValidated q h = ground (arith, check_rest_iff (with_max_depth (with_limit q)))

-- Validating an accepted query once more accepts it and changes nothing.
pub validate_idem :
    (q : QuerySpec) → (validate q).0 ≡ none → validate (validate q).1 ≡ (none, (validate q).1)
unfolding validate
validate_idem q h = ground arith
