-- ===== src/Engine/Tree.antt =====
-- internal/engine/tree.go, with rowToResult of engine.go and MutablePath of generator.go: from flat
-- rows to nested results. The tree's nodes are shared by pointers: here they stand in a list, and a
-- pointer is a position in it.
pub mod Paths
pub mod Forest
pub mod Termination
pub mod Shown
pub mod Roots
use kube_graphql.Common.{
  leb, ◌==◌, if◌then◌else◌, lookup, insert, or_nil, length, get_elem?, modify, drop_last, Text,
  codes, text_eq, is_empty, join, split, ℕ, zero, suc, ◌||◌, Option, none, some, List, [], ◌∷◌,
  ◌++◌,
}
use kube_graphql.Api.{
  Time, ObjectsSpec, absent, shape, RelationMap, relation, spec, ObjectResult, result, ResultMap,
  related, ResultList, nil, cons,
}

-- flatRow. A NULL column is `none`, and a level is natural: the SQL that is generated gives no other.
pub record FlatRow : Type 0 where
  pub id : Text
  pub uid : Text
  pub cluster : Text
  pub api_group : Text
  pub api_version : Text
  pub kind : Text
  pub resource : Text
  pub namespace : Text
  pub name : Text
  pub labels : Option Text
  pub annotations : Option Text
  pub owner_refs : Option Text
  pub conditions : Option Text
  pub creation_ts : Option Time
  pub resource_version : Text
  pub projected_object : Option Text
  pub path : Text
  pub level : ℕ
  pub relation_name : Text

-- `MutablePath`.
unfoldable pub mutable_path : Text → Text → Text → Text → Text → Text
mutable_path api_group api_version resource namespace name =
    let prefix =
      if is_empty api_group
      then codes "/api/" ++ api_version
      else codes "/apis/" ++ (api_group ++ (codes "/" ++ api_version)) in
    if is_empty namespace
    then prefix ++ (codes "/" ++ (resource ++ (codes "/" ++ name)))
    else prefix
      ++ (codes "/namespaces/" ++ (namespace ++ (codes "/" ++ (resource ++ (codes "/" ++ name)))))

-- `parentPathOf`: all but the last two parts between dots, and "" of three parts or fewer.
unfoldable pub parent_path_of : Text → Text
parent_path_of path =
    let parts = split path b'.' in
    if leb (length parts) 3 then [] else join (drop_last 2 parts) (codes ".")

-- treeNode: the children are the nodes' positions, by relation.
pub record TreeNode : Type 0 where
  pub row : FlatRow
  pub children : List (Text × List ℕ)

-- The variables of AssembleTree: all nodes made so far, `nodesByPath` and `rootNodes`.
pub record Assembly : Type 0 where
  pub nodes : List TreeNode
  pub by_path : List (Text × ℕ)
  pub roots : List ℕ

abbrev pub empty_assembly : Assembly
empty_assembly = record { nodes = []; by_path = []; roots = [] }

-- `parent.children[rel] = append(parent.children[rel], node)`.
unfoldable pub add_child : Text → ℕ → TreeNode → TreeNode
add_child rel i node = record node {
  children = insert rel (or_nil (lookup rel node.children) ++ i ∷ []) node.children;
}

-- One round of the loop over the rows.
unfoldable pub place : FlatRow → Assembly → Assembly
place row a =
    let i = length a.nodes in
    let node : TreeNode = record { row = row; children = [] } in
    let nodes = a.nodes ++ node ∷ [] in
    let by_path = insert row.path i a.by_path in
    if row.level == 0
    then record { nodes = nodes; by_path = by_path; roots = a.roots ++ i ∷ [] }
    else elim (lookup (parent_path_of row.path) by_path) [
      | none ↦ record { nodes = nodes; by_path = by_path; roots = a.roots }
      | some parent ↦ record {
        nodes = modify parent (add_child row.relation_name i) nodes;
        by_path = by_path;
        roots = a.roots;
      }
    ]

unfoldable pub place_all : List FlatRow → Assembly → Assembly
place_all [] a = a
place_all (row ∷ rows) a = place_all rows (place row a)

-- `rel.Objects` of the entry for a name.
unfoldable pub objects_of_relation : Text → RelationMap → ObjectsSpec
objects_of_relation name RelationMap.end = absent
objects_of_relation name (relation key (spec limit filters objects) m) =
    if text_eq key name then objects else objects_of_relation name m

-- `findRelationObjectsSpec`.
unfoldable pub find_relation_objects_spec : ObjectsSpec → Text → ObjectsSpec
find_relation_objects_spec absent name = absent
find_relation_objects_spec (shape id cluster path raw relations) name =
    objects_of_relation name relations

-- The result's object: a projected object that is neither NULL, "" nor "null".
unfoldable pub object_of : FlatRow → Option Text
object_of row = elim row.projected_object [
  | none ↦ none
  | some json ↦ if is_empty json || text_eq json (codes "null") then none else some json
]

-- The fields of a result that stand in the row itself, as far as the shape asks for them.
unfoldable pub row_to_result : FlatRow → ObjectsSpec → ResultMap → ObjectResult
row_to_result row absent relations = result [] [] [] (object_of row) relations
row_to_result row (shape id cluster path raw m) relations =
    result (if id then row.id else []) (if cluster then row.cluster else [])
      (if path
        then mutable_path row.api_group row.api_version row.resource row.namespace row.name
        else [])
      (object_of row) relations

module _ (result_of : ObjectsSpec → ℕ → Option ObjectResult) (shape_of : ObjectsSpec) where
  -- The results of one relation's children.
  unfoldable pub child_results : ObjectsSpec → List ℕ → Option ResultList
  child_results child_shape [] = some nil
  child_results child_shape (i ∷ is) = elim (result_of child_shape i) [
    | none ↦ none
    | some r ↦ elim (child_results child_shape is) [ none ↦ none | some rs ↦ some (cons r rs) ]
  ]

  -- The map of all relations' results.
  unfoldable pub relation_results : List (Text × List ℕ) → Option ResultMap
  relation_results [] = some ResultMap.end
  relation_results ((name, is) ∷ children) =
      elim (child_results (find_relation_objects_spec shape_of name) is) [
        | none ↦ none
        | some rs ↦ elim (relation_results children) [
          | none ↦ none
          | some m ↦ some (related name rs m)
        ]
      ]

-- `nodeToResult`, on fuel for the depth of the recursion; `none` means that it ran out.
unfoldable pub node_to_result : List TreeNode → ℕ → ObjectsSpec → ℕ → Option ObjectResult
node_to_result nodes zero shape_of i = none
node_to_result nodes (suc fuel) shape_of i = elim (get_elem? nodes i) [
  | none ↦ none
  | some node ↦ elim (relation_results (node_to_result nodes fuel) shape_of node.children) [
    | none ↦ none
    | some m ↦ some (row_to_result node.row shape_of m)
  ]
]

-- `AssembleTree`; the depth of a tree is at most the number of its nodes.
unfoldable pub assemble_tree : List FlatRow → ObjectsSpec → Option ResultList
assemble_tree rows objects =
    let a = place_all rows empty_assembly in
    child_results (node_to_result a.nodes (length a.nodes)) objects objects a.roots
