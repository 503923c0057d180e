-- ===== src/Engine/Tree/Termination.antt =====
-- The recursion of nodeToResult and the number of results of AssembleTree.
use mathlib.Core.Option.{some-injective}
use mathlib.Core.Path.{subst}
use kube_graphql.Common.{
  ◌==◌, Bool-cases, Option-cases, lookup, insert, length, length-append, keep, All, All-weaken,
  get_elem?, Text, ℕ, zero, suc, ◌+◌, ◌≤◌, ◌<◌, ◌≡◌, refl, ap, ◌∙◌, ◌≢◌, inl, inr, Option, some,
  List, [], ◌∷◌, arith,
}
use kube_graphql.Api.{ObjectsSpec, ObjectResult, ResultMap, related, ResultList, nil, cons}
use kube_graphql.Engine.Tree.{
  FlatRow, parent_path_of, TreeNode, Assembly, empty_assembly, place, place_all,
  find_relation_objects_spec, row_to_result, child_results, relation_results, node_to_result,
  assemble_tree,
}
use kube_graphql.Engine.Tree.Forest.{IsBehind, IsParent, AreParents, IsForest, place_all-IsForest}

-- The number of results.
unfoldable pub result_count : ResultList → ℕ
result_count nil = 0
result_count (cons r rs) = suc (result_count rs)

-- The number of rows at level 0.
abbrev pub root_rows : List FlatRow → List FlatRow
root_rows = keep (λ row. row.level == 0)

get_elem?-some {ℓ} :
    {A : Type ℓ} (xs : List A) (i : ℕ) → i < length xs → (x : A) × (get_elem? xs i ≡ some x)
get_elem?-some [] i h = ground (arith, h)
get_elem?-some (x ∷ xs) zero h = (x, refl)
get_elem?-some (x ∷ xs) (suc i) h = get_elem?-some xs i (omega arith)

IsParent-at :
    (n i j : ℕ) (nodes : List TreeNode) (node : TreeNode)
    → AreParents n i nodes
    → get_elem? nodes j ≡ some node
    → IsParent n (i + j) node
IsParent-at n i j [] node h e = cc e
IsParent-at n i zero (x ∷ xs) node h e =
    subst (IsParent n (i + 0)) (some-injective _ _ e)
      (subst (λ k. IsParent n k x) (omega arith) h.0)
IsParent-at n i (suc j) (x ∷ xs) node h e =
    subst (λ k. IsParent n k node) (omega arith) (IsParent-at n (suc i) j xs node h.1 e)

-- A value that an optional value holds.
abbrev pub Gives {ℓ} : {A : Type ℓ} → Option A → Type ℓ
Gives {A = A} o = (x : A) × (o ≡ some x)

module _ (result_of : ObjectsSpec → ℕ → Option ObjectResult) (shape_of : ObjectsSpec) where
  -- The results of some children are there, as many as the children.
  pub child_results-Gives :
      (o : ObjectsSpec) (is : List ℕ)
      → All (λ i. Gives (result_of o i)) is
      → (rs : ResultList) × (child_results result_of shape_of o is ≡ some rs)
        × (result_count rs ≡ length is)
  unfolding child_results result_count
  child_results-Gives o [] h = (nil, refl, refl)
  child_results-Gives o (i ∷ is) h =
      let (r, e) = h.0 in
      let (rs, es, count) = child_results-Gives o is h.1 in
      (cons r rs, rw (e, child_results) (rw es refl), ap suc count)

  relation_results-Gives :
      (children : List (Text × List ℕ))
      → All
          (λ (e : Text × List ℕ). All (λ i. (o : ObjectsSpec) → Gives (result_of o i)) e.1)
          children
      → Gives (relation_results result_of shape_of children)
  unfolding relation_results
  relation_results-Gives [] h = (ResultMap.end, refl)
  relation_results-Gives ((name, is) ∷ children) h =
      let o = find_relation_objects_spec shape_of name in
      let (rs, es, _) = child_results-Gives o is (
        All-weaken (λ i. (p : ObjectsSpec) → Gives (result_of p i)) (λ i. Gives (result_of o i)) is
          (λ i f. f o) h.0) in
      let (m, e) = relation_results-Gives children h.1 in
      (related name rs m, rw (es, relation_results) (rw e refl))

-- Fuel for the nodes behind a node is enough for its result.
node_to_result-Gives :
    (nodes : List TreeNode) (fuel i : ℕ) (o : ObjectsSpec)
    → AreParents (length nodes) 0 nodes
    → i < length nodes
    → length nodes ≤ i + fuel
    → Gives (node_to_result nodes fuel o i)
unfolding node_to_result
node_to_result-Gives nodes zero i o h k enough = ground (arith, k, enough)
node_to_result-Gives nodes (suc fuel) i o h k enough =
    let n = length nodes in
    let (node, e) = get_elem?-some nodes i k in
    let behind : IsParent n i node =
      subst (λ j. IsParent n j node) (omega arith) (IsParent-at n 0 i nodes node h e) in
    let below : (c : ℕ)
        → IsBehind n i c
        → (p : ObjectsSpec) → Gives (node_to_result nodes fuel p c) =
      λ c b p. node_to_result-Gives nodes fuel c p h b.1 (omega (arith, b.0, enough)) in
    let (m, em) = relation_results-Gives (node_to_result nodes fuel) o node.children (
      All-weaken (λ (x : Text × List ℕ). All (IsBehind n i) x.1)
        (λ (x : Text × List ℕ).
          All (λ c. (p : ObjectsSpec) → Gives (node_to_result nodes fuel p c)) x.1)
        node.children
        (λ x b.
          All-weaken (IsBehind n i) (λ c. (p : ObjectsSpec) → Gives (node_to_result nodes fuel p c))
            x.1 below b)
        behind) in
    (row_to_result node.row o m, rw (e, node_to_result) (rw em refl))

place-roots :
    (row : FlatRow) (a : Assembly)
    → length (place row a).roots ≡ length a.roots + length (root_rows (row ∷ []))
unfolding place
place-roots row a = elim (Bool-cases (row.level == 0)) [
  | inl e ↦ rw e (length-append a.roots (length a.nodes ∷ []))
  | inr e ↦
      rw e
        (elim (Option-cases
          (lookup (parent_path_of row.path) (insert row.path (length a.nodes) a.by_path))) [
            | inl none_found ↦ rw none_found (omega arith)
            | inr (parent, found) ↦ rw found (omega arith)
          ])
]

root_rows-cons :
    (row : FlatRow) (rows : List FlatRow)
    → length (root_rows (row ∷ rows)) ≡ length (root_rows (row ∷ [])) + length (root_rows rows)
root_rows-cons row rows = elim (Bool-cases (row.level == 0)) [
  | inl e ↦ rw e (omega arith)
  | inr e ↦ rw e (omega arith)
]

place_all-roots :
    (rows : List FlatRow) (a : Assembly)
    → length (place_all rows a).roots ≡ length a.roots + length (root_rows rows)
unfolding place_all
place_all-roots [] a = omega arith
place_all-roots (row ∷ rows) a =
    omega (arith, place_all-roots rows (place row a), place-roots row a, root_rows-cons row rows)

-- Rows with a path always give results, one for each row at level 0: the fuel never runs out.
pub assemble_tree-Gives :
    (rows : List FlatRow) (objects : ObjectsSpec)
    → All (λ (row : FlatRow). row.path ≢ []) rows
    → (rs : ResultList) × (assemble_tree rows objects ≡ some rs)
      × (result_count rs ≡ length (root_rows rows))
unfolding assemble_tree
assemble_tree-Gives rows objects h =
    let start : IsForest empty_assembly = record { parents = tt; known = tt; roots = tt } in
    let a = place_all rows empty_assembly in
    let ok = place_all-IsForest rows empty_assembly h start in
    let n = length a.nodes in
    let (rs, e, count) = child_results-Gives (node_to_result a.nodes n) objects objects a.roots (
      All-weaken (λ i. i < n) (λ i. Gives (node_to_result a.nodes n objects i)) a.roots
        (λ i k. node_to_result-Gives a.nodes n i objects ok.parents k (omega arith)) ok.roots) in
    (rs, e, count ∙ place_all-roots rows empty_assembly ∙ omega arith)
