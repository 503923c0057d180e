-- ===== src/Engine/Relational/Queue/Order.antt =====
-- The order of the queue of generateWithRelations: the relations of one map, in whatever order a
-- range visits them.
use mathlib.Core.HLevel.{¬_prop}
use mathlib.Core.List.{Permᴰ, Pairwise, Pairwise-map, mem-cons_self}
use mathlib.Core.List
use mathlib.Core.List.Permᴰ
use kube_graphql.Common.{
  ◌==◌, ==_iff, Bool-cases, Text, ℕ, ◌≡◌, refl, sym, ap, ◌∙◌, ◌≢◌, inl, inr, true, false, not, List,
  [], ◌∷◌, arith,
}
use kube_graphql.Api.{RelationMap, relation, RelationSpec}
use kube_graphql.Engine.Relational.Queue.{Node, text_ltb, insert_sorted, sort_nodes, nodes_of}
use kube_graphql.Engine.Transitive.{Ancestor}

-- Names are in a total order.
text_ltb_other : (s t : Text) → s ≢ t → text_ltb t s ≡ not (text_ltb s t)
unfolding text_ltb
text_ltb_other [] [] h = absurd (h refl)
text_ltb_other [] (d ∷ t) h = refl
text_ltb_other (c ∷ s) [] h = refl
text_ltb_other (c ∷ s) (d ∷ t) h = elim (Bool-cases (c == d)) [
  | inl e ↦
      let same = (==_iff c d).0 e in
      let rest = text_ltb_other s t (λ tails. h (cc (same, tails))) in ground (arith, same, rest)
  | inr e ↦ ground (arith, e)
]

text_ltb_between : (a b m : Text) → text_ltb m a ≡ true → text_ltb m b ≡ false → text_ltb b a ≡ true
unfolding text_ltb
text_ltb_between [] b m h k = ground (arith, h)
text_ltb_between (c ∷ a) [] m h k = refl
text_ltb_between (c ∷ a) (d ∷ b) [] h k = cc k
text_ltb_between (c ∷ a) (d ∷ b) (e ∷ m) h k = ground (arith, h, k, text_ltb_between a b m)

-- Nodes with different names.
abbrev pub Differ : Node → Node → Type 0
Differ n m = n.relation_name ≢ m.relation_name

-- Two nodes with different names go into a queue in either order.
insert_sorted_swap :
    (a b : Node) (ns : List Node)
    → Differ a b
    → insert_sorted a (insert_sorted b ns) ≡ insert_sorted b (insert_sorted a ns)
unfolding insert_sorted
insert_sorted_swap a b [] h =
    let back = text_ltb_other a.relation_name b.relation_name h in
    elim (Bool-cases (text_ltb a.relation_name b.relation_name)) [
      | inl e ↦ rw (back, e) refl
      | inr e ↦ rw (back, e) refl
    ]
insert_sorted_swap a b (m ∷ ms) h =
    let back = text_ltb_other a.relation_name b.relation_name h in
    elim (Bool-cases (text_ltb m.relation_name a.relation_name)) [
      | inl i ↦ elim (Bool-cases (text_ltb m.relation_name b.relation_name)) [
        | inl j ↦ rw (i, j, i) (ap (λ l. m ∷ l) (insert_sorted_swap a b ms h))
        | inr j ↦
            let below = text_ltb_between a.relation_name b.relation_name m.relation_name i j in
            rw (i, j, below, i) refl
      ]
      | inr i ↦ elim (Bool-cases (text_ltb m.relation_name b.relation_name)) [
        | inl j ↦
            let below = text_ltb_between b.relation_name a.relation_name m.relation_name j i in
            rw (i, j, i, below) refl
        | inr j ↦ elim (Bool-cases (text_ltb a.relation_name b.relation_name)) [
          | inl e ↦ rw (i, j, back, e) refl
          | inr e ↦ rw (i, j, back, e, i) refl
        ]
      ]
    ]

-- Whatever the order, the queue is the same.
pub sort_nodes_swap :
    {ns ms : List Node} → Permᴰ ns ms → Pairwise Differ ns → sort_nodes ns ≡ sort_nodes ms
unfolding sort_nodes
sort_nodes_swap Permᴰ.nil h = refl
sort_nodes_swap (Permᴰ.cons e d) (Pairwise.cons h t) = cc (e, sort_nodes_swap d t)
sort_nodes_swap (Permᴰ.swap {a = a} {b = b} {a' = a'} {b' = b'} {l = l} e₁ e₂) (Pairwise.cons h t) =
    let swapped = insert_sorted_swap a b (sort_nodes l) (h b mem-cons_self) in cc (swapped, e₁, e₂)
sort_nodes_swap (Permᴰ.trans d₁ d₂) h =
    sort_nodes_swap d₁ h
    ∙ sort_nodes_swap d₂ (Permᴰ.pairwise (λ n m. ¬_prop) (λ n m d e. d (sym e)) d₁ h)

-- The entries of a map of relations, in the order of a range.
unfoldable pub entries : RelationMap → List (Text × RelationSpec)
entries RelationMap.end = []
entries (relation name r m) = (name, r) ∷ entries m

-- The keys of a map are different.
abbrev pub DifferentKeys : Text × RelationSpec → Text × RelationSpec → Type 0
DifferentKeys a b = a.0 ≢ b.0

abbrev entry_node : ℕ → List Ancestor → Text × RelationSpec → Node
entry_node level ancestors e = record {
  level = level;
  relation_name = e.0;
  relation_spec = e.1;
  ancestors = ancestors;
}

nodes_of-entries :
    (level : ℕ) (ancestors : List Ancestor) (m : RelationMap)
    → nodes_of level ancestors m ≡ List.map (entry_node level ancestors) (entries m)
unfolding nodes_of entries
nodes_of-entries level ancestors RelationMap.end = refl
nodes_of-entries level ancestors (relation name r m) =
    ap (λ ns. entry_node level ancestors (name, r) ∷ ns) (nodes_of-entries level ancestors m)

-- A map that a range visits in another order gives the same queue.
pub sort_nodes-entries :
    (level : ℕ) (ancestors : List Ancestor) (m m' : RelationMap)
    → Pairwise DifferentKeys (entries m)
    → Permᴰ (entries m) (entries m')
    → sort_nodes (nodes_of level ancestors m) ≡ sort_nodes (nodes_of level ancestors m')
sort_nodes-entries level ancestors m m' h d =
    rw (nodes_of-entries level ancestors m, nodes_of-entries level ancestors m')
      (sort_nodes_swap (Permᴰ.map (entry_node level ancestors) d)
        ((Pairwise-map {R = Differ} (λ n k. ¬_prop) (entry_node level ancestors)).1 h))
