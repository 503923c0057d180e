-- ===== src/Engine/Tree/Roots.antt =====
-- The roots of an assembled tree and the results made of them.
use mathlib.Core.Option.{some-injective}
use mathlib.Core.Path.{subst}
use kube_graphql.Common.{
  ◌==◌, Bool-cases, Option-cases, lookup, insert, length, get_elem?, modify, Text, ℕ, zero, suc,
  ◌≡◌, refl, ap, ◌∙◌, inl, inr, Option, none, some, List, [], ◌∷◌, ◌++◌, append-nil, append_assoc,
}
use kube_graphql.Api.{ObjectsSpec, ObjectResult, ResultList}
use kube_graphql.Engine.Tree.{
  FlatRow, parent_path_of, TreeNode, Assembly, empty_assembly, add_child, place, place_all,
  child_results, relation_results, node_to_result, assemble_tree,
}
use kube_graphql.Engine.Tree.Shown.{Shows, AllShow, row_to_result-Shows}
use kube_graphql.Engine.Tree.Termination.{root_rows}

-- The row of the node at a position.
abbrev node_row : List TreeNode → ℕ → Option FlatRow
node_row nodes i = elim (get_elem? nodes i) [ none ↦ none | some node ↦ some node.row ]

-- The nodes at these positions have these rows.
abbrev RowsAt : List TreeNode → List ℕ → List FlatRow → Type 0
RowsAt nodes [] [] = Unit
RowsAt nodes [] (row ∷ rows) = ⊥
RowsAt nodes (i ∷ is) [] = ⊥
RowsAt nodes (i ∷ is) (row ∷ rows) = (node_row nodes i ≡ some row) × RowsAt nodes is rows

RowsAt-map :
    (nodes nodes' : List TreeNode) (is : List ℕ) (rows : List FlatRow)
    → ((i : ℕ) (row : FlatRow) → node_row nodes i ≡ some row → node_row nodes' i ≡ some row)
    → RowsAt nodes is rows
    → RowsAt nodes' is rows
RowsAt-map nodes nodes' [] [] f h = tt
RowsAt-map nodes nodes' [] (row ∷ rows) f h = h
RowsAt-map nodes nodes' (i ∷ is) [] f h = h
RowsAt-map nodes nodes' (i ∷ is) (row ∷ rows) f h =
    (f i row h.0, RowsAt-map nodes nodes' is rows f h.1)

RowsAt-append :
    (nodes : List TreeNode) (is : List ℕ) (rows : List FlatRow) (i : ℕ) (row : FlatRow)
    → RowsAt nodes is rows
    → node_row nodes i ≡ some row
    → RowsAt nodes (is ++ i ∷ []) (rows ++ row ∷ [])
RowsAt-append nodes [] [] i row h e = (e, tt)
RowsAt-append nodes [] (r ∷ rows) i row h e = absurd h
RowsAt-append nodes (k ∷ is) [] i row h e = absurd h
RowsAt-append nodes (k ∷ is) (r ∷ rows) i row h e = (h.0, RowsAt-append nodes is rows i row h.1 e)

node_row-append :
    (nodes : List TreeNode) (node : TreeNode) (i : ℕ) (row : FlatRow)
    → node_row nodes i ≡ some row
    → node_row (nodes ++ node ∷ []) i ≡ some row
node_row-append [] node i row e = cc e
node_row-append (n ∷ nodes) node zero row e = e
node_row-append (n ∷ nodes) node (suc i) row e = node_row-append nodes node i row e

node_row-length :
    (nodes : List TreeNode) (node : TreeNode)
    → node_row (nodes ++ node ∷ []) (length nodes) ≡ some node.row
node_row-length [] node = refl
node_row-length (n ∷ nodes) node = node_row-length nodes node

node_row-modify :
    (p k : ℕ) (name : Text) (nodes : List TreeNode) (i : ℕ)
    → node_row (modify p (add_child name k) nodes) i ≡ node_row nodes i
unfolding add_child
node_row-modify p k name [] i = refl
node_row-modify zero k name (n ∷ nodes) zero = refl
node_row-modify zero k name (n ∷ nodes) (suc i) = refl
node_row-modify (suc p) k name (n ∷ nodes) zero = refl
node_row-modify (suc p) k name (n ∷ nodes) (suc i) = node_row-modify p k name nodes i

-- The nodes at the positions of the roots have the rows at level 0, in order.
place-RowsAt :
    (row : FlatRow) (a : Assembly) (before : List FlatRow)
    → RowsAt a.nodes a.roots before
    → RowsAt (place row a).nodes (place row a).roots (before ++ root_rows (row ∷ []))
unfolding place
place-RowsAt row a before h =
    let node : TreeNode = record { row = row; children = [] } in
    let nodes = a.nodes ++ node ∷ [] in
    let n = length a.nodes in
    let kept : RowsAt nodes a.roots before =
      RowsAt-map a.nodes nodes a.roots before (node_row-append a.nodes node) h in
    elim (Bool-cases (row.level == 0)) [
      | inl e ↦ rw e (RowsAt-append nodes a.roots before n row kept (node_row-length a.nodes node))
      | inr e ↦
          rw (e, append-nil before)
            (elim (Option-cases (lookup (parent_path_of row.path) (insert row.path n a.by_path))) [
              | inl f ↦ rw f kept
              | inr (parent, f) ↦ rw f (
                  RowsAt-map nodes _ a.roots before
                    (λ i r stands. node_row-modify parent n row.relation_name nodes i ∙ stands)
                    kept)
            ])
    ]

root_rows-append :
    (row : FlatRow) (rows : List FlatRow)
    → root_rows (row ∷ []) ++ root_rows rows ≡ root_rows (row ∷ rows)
root_rows-append row rows = elim (Bool-cases (row.level == 0)) [
  | inl e ↦ rw e refl
  | inr e ↦ rw e refl
]

place_all-RowsAt :
    (rows : List FlatRow) (a : Assembly) (before : List FlatRow)
    → RowsAt a.nodes a.roots before
    → RowsAt (place_all rows a).nodes (place_all rows a).roots (before ++ root_rows rows)
unfolding place_all
place_all-RowsAt [] a before h = rw (append-nil before) h
place_all-RowsAt (row ∷ rows) a before h =
    subst (λ l. RowsAt (place_all rows (place row a)).nodes (place_all rows (place row a)).roots l)
      (append_assoc before (root_rows (row ∷ [])) (root_rows rows)
        ∙ ap (λ l. before ++ l) (root_rows-append row rows))
      (place_all-RowsAt rows (place row a) (before ++ root_rows (row ∷ []))
        (place-RowsAt row a before h))

node_to_result-Shows :
    (nodes : List TreeNode) (fuel i : ℕ) (o : ObjectsSpec) (row : FlatRow) (r : ObjectResult)
    → node_row nodes i ≡ some row
    → node_to_result nodes fuel o i ≡ some r
    → Shows o row r
unfolding node_to_result
node_to_result-Shows nodes zero i o row r stands e = cc e
node_to_result-Shows nodes (suc fuel) i o row r stands e = elim (Option-cases (get_elem? nodes i)) [
  | inl g ↦ cc (rw (node_row, g) at stands)
  | inr (node, g) ↦
      elim (Option-cases (relation_results (node_to_result nodes fuel) o node.children)) [
        | inl f ↦ cc (rw (g, f, node_to_result) at e)
        | inr (m, f) ↦
            let same : node.row ≡ row = some-injective _ _ (rw (node_row, g) at stands) in
            subst (λ x. Shows o x r) same
              (subst (Shows o node.row) (some-injective _ _ (rw (g, f, node_to_result) at e))
                (row_to_result-Shows node.row o m))
      ]
]

child_results-AllShow :
    (nodes : List TreeNode) (fuel : ℕ) (shape_of o : ObjectsSpec) (is : List ℕ)
    (rows : List FlatRow) (rs : ResultList)
    → RowsAt nodes is rows
    → child_results (node_to_result nodes fuel) shape_of o is ≡ some rs
    → AllShow o rows rs
unfolding child_results
child_results-AllShow nodes fuel shape_of o [] [] rs h e =
    subst (AllShow o []) (some-injective _ _ e) tt
child_results-AllShow nodes fuel shape_of o [] (row ∷ rows) rs h e = absurd h
child_results-AllShow nodes fuel shape_of o (i ∷ is) [] rs h e = absurd h
child_results-AllShow nodes fuel shape_of o (i ∷ is) (row ∷ rows) rs h e =
    elim (Option-cases (node_to_result nodes fuel o i)) [
      | inl f ↦ cc (rw (f, child_results) at e)
      | inr (r, f) ↦ elim (Option-cases (child_results (node_to_result nodes fuel) shape_of o is)) [
        | inl g ↦ cc (rw (f, g, child_results) at e)
        | inr (rest, g) ↦
            subst (AllShow o (row ∷ rows)) (some-injective _ _ (rw (f, g, child_results) at e)) (
              node_to_result-Shows nodes fuel i o row r h.0 f,
              child_results-AllShow nodes fuel shape_of o is rows rest h.1 g,
            )
      ]
    ]

-- The results of an assembled tree show its rows at level 0.
pub assemble_tree-AllShow :
    (rows : List FlatRow) (objects : ObjectsSpec) (rs : ResultList)
    → assemble_tree rows objects ≡ some rs
    → AllShow objects (root_rows rows) rs
unfolding assemble_tree
assemble_tree-AllShow rows objects rs e =
    let a = place_all rows empty_assembly in
    child_results-AllShow a.nodes (length a.nodes) objects objects a.roots (root_rows rows) rs
      (place_all-RowsAt rows empty_assembly [] tt) e
