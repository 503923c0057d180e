-- ===== src/Engine/Tree/Forest.antt =====
-- The positions of parents and children among the nodes that AssembleTree builds.
use mathlib.Core.Option.{some-injective}
use mathlib.Core.Path.{subst}
use kube_graphql.Common.{
  ◌==◌, Bool-cases, Option-cases, lookup, insert, lookup-insert, or_nil, length, length-append, All,
  modify, length-modify, Text, text_eq, ne_text, ℕ, zero, suc, ◌+◌, ◌≤◌, ◌<◌, ◌≡◌, refl, sym, ◌∙◌,
  ◌≢◌, inl, inr, false, some, List, [], ◌∷◌, ◌++◌, arith,
}
use kube_graphql.Engine.Tree.{
  FlatRow, parent_path_of, TreeNode, Assembly, add_child, place, place_all,
}
use kube_graphql.Engine.Tree.Paths.{parent_path_of-ne}

-- A child's position, seen from its parent at position i among n nodes.
abbrev pub IsBehind : ℕ → ℕ → ℕ → Type 0
IsBehind n i c = (i < c) × (c < n)

-- The children of one node, and of all nodes from position i on, stand behind it.
abbrev pub IsParent : ℕ → ℕ → TreeNode → Type 0
IsParent n i node = All (λ (e : Text × List ℕ). All (IsBehind n i) e.1) node.children

abbrev pub AreParents : ℕ → ℕ → List TreeNode → Type 0
AreParents n i [] = Unit
AreParents n i (node ∷ nodes) = IsParent n i node × AreParents n (suc i) nodes

pub record IsForest (a : Assembly) : Type 0 where
  pub parents : AreParents (length a.nodes) 0 a.nodes
  pub known : All (λ (e : Text × ℕ). e.1 < length a.nodes) a.by_path
  pub roots : All (λ i. i < length a.nodes) a.roots

-- More nodes, and nodes at the end without children.
AllBehind-grow : (n m i : ℕ) (cs : List ℕ) → n ≤ m → All (IsBehind n i) cs → All (IsBehind m i) cs
AllBehind-grow n m i [] h k = tt
AllBehind-grow n m i (c ∷ cs) h k = ((k.0.0, omega (arith, k.0, h)), AllBehind-grow n m i cs h k.1)

IsParent-grow :
    (n m i : ℕ) (children : List (Text × List ℕ))
    → n ≤ m
    → All (λ (e : Text × List ℕ). All (IsBehind n i) e.1) children
    → All (λ (e : Text × List ℕ). All (IsBehind m i) e.1) children
IsParent-grow n m i [] h k = tt
IsParent-grow n m i (e ∷ es) h k = (AllBehind-grow n m i e.1 h k.0, IsParent-grow n m i es h k.1)

AreParents-grow :
    (n m i : ℕ) (nodes : List TreeNode) → n ≤ m → AreParents n i nodes → AreParents m i nodes
AreParents-grow n m i [] h k = tt
AreParents-grow n m i (node ∷ nodes) h k =
    (IsParent-grow n m i node.children h k.0, AreParents-grow n m (suc i) nodes h k.1)

AreParents-leaf :
    (n i : ℕ) (nodes : List TreeNode) (row : FlatRow)
    → AreParents n i nodes
    → AreParents n i (nodes ++ record { row = row; children = [] } ∷ [])
AreParents-leaf n i [] row h = (tt, tt)
AreParents-leaf n i (node ∷ nodes) row h = (h.0, AreParents-leaf n (suc i) nodes row h.1)

All-snoc {ℓ κ} :
    {A : Type ℓ} (P : A → Type κ) (xs : List A) (x : A) → All P xs → P x → All P (xs ++ x ∷ [])
All-snoc P [] x h p = (p, tt)
All-snoc P (y ∷ ys) x h p = (h.0, All-snoc P ys x h.1 p)

-- Every value of a map has a property that all its values have.
pub All-insert {ℓ κ} :
    {V : Type ℓ} (P : V → Type κ) (k : Text) (v : V) (m : List (Text × V))
    → P v
    → All (λ (e : Text × V). P e.1) m
    → All (λ (e : Text × V). P e.1) (insert k v m)
All-insert P k v [] p h = (p, tt)
All-insert P k v ((j, w) ∷ m) p h = elim (Bool-cases (text_eq j k)) [
  | inl e ↦ rw e (p, h.1)
  | inr e ↦ rw e (h.0, All-insert P k v m p h.1)
]

pub All-lookup {ℓ κ} :
    {V : Type ℓ} (P : V → Type κ) (k : Text) (m : List (Text × V)) (v : V)
    → All (λ (e : Text × V). P e.1) m
    → lookup k m ≡ some v
    → P v
All-lookup P k [] v h e = cc e
All-lookup P k ((j, w) ∷ m) v h e = elim (Bool-cases (text_eq j k)) [
  | inl t ↦ subst P (some-injective _ _ (rw t at e)) h.0
  | inr t ↦ All-lookup P k m v h.1 (rw t at e)
]

-- One more child behind its parent.
children-add :
    (n i c : ℕ) (name : Text) (children : List (Text × List ℕ))
    → IsBehind n i c
    → All (λ (e : Text × List ℕ). All (IsBehind n i) e.1) children
    → All
        (λ (e : Text × List ℕ). All (IsBehind n i) e.1)
        (insert name (or_nil (lookup name children) ++ c ∷ []) children)
children-add n i c name children b h =
    All-insert (All (IsBehind n i)) name _ children
      (elim (Option-cases (lookup name children)) [
        | inl e ↦ rw e (b, tt)
        | inr (cs, e) ↦
            rw e (
              All-snoc (IsBehind n i) cs c (All-lookup (All (IsBehind n i)) name children cs h e) b)
      ])
      h

AreParents-modify :
    (n i j c : ℕ) (name : Text) (nodes : List TreeNode)
    → IsBehind n (i + j) c
    → AreParents n i nodes
    → AreParents n i (modify j (add_child name c) nodes)
unfolding add_child
AreParents-modify n i j c name [] b h = tt
AreParents-modify n i zero c name (node ∷ nodes) b h =
    (children-add n i c name node.children (omega (arith, b.0), b.1) h.0, h.1)
AreParents-modify n i (suc j) c name (node ∷ nodes) b h =
    (h.0, AreParents-modify n (suc i) j c name nodes (omega (arith, b.0), b.1) h.1)

-- A row's node has a place among the nodes after it is added.
known-grow :
    (n m : ℕ) (by_path : List (Text × ℕ))
    → n ≤ m
    → All (λ (e : Text × ℕ). e.1 < n) by_path
    → All (λ (e : Text × ℕ). e.1 < m) by_path
known-grow n m [] h k = tt
known-grow n m (e ∷ es) h k = (omega (arith, k.0, h), known-grow n m es h k.1)

roots-grow : (n m : ℕ) (is : List ℕ) → n ≤ m → All (λ i. i < n) is → All (λ i. i < m) is
roots-grow n m [] h k = tt
roots-grow n m (i ∷ is) h k = (omega (arith, k.0, h), roots-grow n m is h k.1)

-- The parent of a row that is found stands before it.
parent-before :
    (row : FlatRow) (n parent : ℕ) (by_path : List (Text × ℕ))
    → row.path ≢ []
    → All (λ (e : Text × ℕ). e.1 < n) by_path
    → lookup (parent_path_of row.path) (insert row.path n by_path) ≡ some parent
    → parent < n
parent-before row n parent by_path h k e =
    let key = parent_path_of row.path in
    let other : text_eq row.path key ≡ false =
      ne_text row.path key (λ same. parent_path_of-ne row.path h (sym same)) in
    All-lookup (λ i. i < n) key by_path parent k
      (sym (lookup-insert row.path key n by_path ∙ rw other refl) ∙ e)

-- Changing one node leaves their number.
modify-IsForest :
    (m j : ℕ) (f : TreeNode → TreeNode) (nodes : List TreeNode) (by_path : List (Text × ℕ))
    (roots : List ℕ)
    → length nodes ≡ m
    → AreParents m 0 (modify j f nodes)
    → All (λ (e : Text × ℕ). e.1 < m) by_path
    → All (λ i. i < m) roots
    → IsForest (record { nodes = modify j f nodes; by_path = by_path; roots = roots })
modify-IsForest m j f nodes by_path roots e p k r =
    let same : m ≡ length (modify j f nodes) = sym (length-modify j f nodes ∙ e) in
    record {
      parents = subst (λ n. AreParents n 0 (modify j f nodes)) same p;
      known = subst (λ n. All (λ (e : Text × ℕ). e.1 < n) by_path) same k;
      roots = subst (λ n. All (λ i. i < n) roots) same r;
    }

pub place-IsForest :
    (row : FlatRow) (a : Assembly) → row.path ≢ [] → IsForest a → IsForest (place row a)
unfolding place
place-IsForest row a h ok =
    let n = length a.nodes in
    let m = length (a.nodes ++ record { row = row; children = [] } ∷ []) in
    let more : m ≡ suc n =
      length-append a.nodes (record { row = row; children = [] } ∷ []) ∙ omega arith in
    let nodes =
      AreParents-leaf m 0 a.nodes row
        (AreParents-grow n m 0 a.nodes (omega (arith, more)) ok.parents) in
    let known =
      All-insert (λ i. i < m) row.path n a.by_path (omega (arith, more))
        (known-grow n m a.by_path (omega (arith, more)) ok.known) in
    let roots = roots-grow n m a.roots (omega (arith, more)) ok.roots in
    let leaf : TreeNode = record { row = row; children = [] } in
    elim (Bool-cases (row.level == 0)) [
      | inl root ↦ rw root (record {
        parents = nodes;
        known = known;
        roots = All-snoc (λ i. i < m) a.roots n roots (omega (arith, more));
      })
      | inr below ↦
          rw below
            (elim (Option-cases (lookup (parent_path_of row.path) (insert row.path n a.by_path))) [
              | inl e ↦ rw e (record { parents = nodes; known = known; roots = roots })
              | inr (parent, e) ↦
                  let before = parent-before row n parent a.by_path h ok.known e in
                  let behind : IsBehind m (0 + parent) n =
                    (omega (arith, before), omega (arith, more)) in
                  let f = add_child row.relation_name n in
                  rw e (
                    modify-IsForest m parent f (a.nodes ++ leaf ∷ []) _ a.roots refl
                      (AreParents-modify m 0 parent n row.relation_name (a.nodes ++ leaf ∷ [])
                        behind nodes)
                      known roots)
            ])
    ]

pub place_all-IsForest :
    (rows : List FlatRow) (a : Assembly)
    → All (λ (row : FlatRow). row.path ≢ []) rows
    → IsForest a
    → IsForest (place_all rows a)
unfolding place_all
place_all-IsForest [] a h ok = ok
place_all-IsForest (row ∷ rows) a h ok =
    place_all-IsForest rows (place row a) h.1 (place-IsForest row a h.0 ok)
