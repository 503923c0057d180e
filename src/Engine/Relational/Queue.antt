-- ===== src/Engine/Relational/Queue.antt =====
-- The queue of generateWithRelations in internal/engine/generator.go: its nodes, and the order in
-- which the relations of one map are queued.
pub mod Order
use kube_graphql.Common.{
  ltb, ◌==◌, if◌then◌else◌, Text, ℕ, Bool, true, false, ◌&&◌, ◌||◌, List, [], ◌∷◌,
}
use kube_graphql.Api.{ObjectsSpec, absent, shape, RelationMap, relation, RelationSpec}
use kube_graphql.Engine.Transitive.{Ancestor}

-- bfsNode, but for parentObjSpec, which nothing reads.
pub record Node : Type 0 where
  pub level : ℕ
  pub relation_name : Text
  pub relation_spec : RelationSpec
  pub ancestors : List Ancestor

-- `s < t` on strings.
unfoldable pub text_ltb : Text → Text → Bool
text_ltb s [] = false
text_ltb [] (d ∷ t) = true
text_ltb (c ∷ s) (d ∷ t) = ltb c d || ((c == d) && text_ltb s t)

-- `sort.Slice` and `sort.Strings` by the relations' names.
unfoldable pub insert_sorted : Node → List Node → List Node
insert_sorted n [] = n ∷ []
insert_sorted n (m ∷ ms) =
    if text_ltb m.relation_name n.relation_name then m ∷ insert_sorted n ms else n ∷ m ∷ ms

unfoldable pub sort_nodes : List Node → List Node
sort_nodes [] = []
sort_nodes (n ∷ ns) = insert_sorted n (sort_nodes ns)

-- A node for each relation of a map.
unfoldable pub nodes_of : ℕ → List Ancestor → RelationMap → List Node
nodes_of level ancestors RelationMap.end = []
nodes_of level ancestors (relation name r m) =
    record { level = level; relation_name = name; relation_spec = r; ancestors = ancestors }
    ∷ nodes_of level ancestors m

-- The nodes that an ObjectsSpec adds to the queue, by name.
unfoldable pub sorted_nodes : ℕ → List Ancestor → ObjectsSpec → List Node
sorted_nodes level ancestors absent = []
sorted_nodes level ancestors (shape id cluster path json m) =
    sort_nodes (nodes_of level ancestors m)
