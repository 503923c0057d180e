-- ===== src/Engine/Relational/Nodes.antt =====
-- The nodes that generateWithRelations queues: what holds of all relations of a query holds of them.
use kube_graphql.Common.{
  Bool-cases, Option-cases, OrElse, OrElse-map, OrElse-intro, All, All-append, ℤ, Text, ℕ, suc, ◌≤◌,
  ◌≡◌, inl, inr, true, some, List, [], ◌∷◌,
}
use kube_graphql.Api.{ObjectsSpec, absent, shape, RelationMap, relation, RelationSpec, spec}
use kube_graphql.Engine.Codec.{Codec}
use kube_graphql.Engine.Projection.{build_projection}
use kube_graphql.Engine.Relational.{Outcome, finished, failed, out_of_fuel, drain}
use kube_graphql.Engine.Relational.Loop.{queue_weight, Visited, Ends, Step, Skip, drain_rule}
use kube_graphql.Engine.Relational.Queue.{
  Node, text_ltb, insert_sorted, sort_nodes, nodes_of, sorted_nodes,
}
use kube_graphql.Engine.Relational.Visit.{
  Collected, add_subquery, level_alias, spec_objects, relations_of, next_level, relation_join,
  sub_subquery, visit_sub_relation, visit_transitive, node_join, direct_subquery, own_ancestors,
  visit_direct, visit,
}
use kube_graphql.Engine.Relations.{is_transitive}
use kube_graphql.Engine.Transitive.{Ancestor}

-- Every relation of a tree, by its name and its spec, satisfies `P`.
module _ (P : Text → RelationSpec → Type 0) where
  unfoldable mutual
    pub AllRelations : ObjectsSpec → Type 0
    AllRelations absent = Unit
    AllRelations (shape id cluster path json m) = AllOf m

    pub AllOf : RelationMap → Type 0
    AllOf RelationMap.end = Unit
    AllOf (relation name r m) = P name r × (AllBelow r × AllOf m)

    pub AllBelow : RelationSpec → Type 0
    AllBelow (spec limit filters objects) = AllRelations objects

  pub AllBelow-objects : (r : RelationSpec) → AllBelow r → AllRelations (spec_objects r)
  unfolding AllBelow spec_objects
  AllBelow-objects (spec limit filters objects) h = h

  pub AllRelations-map : (o : ObjectsSpec) → AllRelations o → AllOf (relations_of o)
  unfolding AllRelations AllOf relations_of
  AllRelations-map absent h = tt
  AllRelations-map (shape id cluster path json m) h = h

  -- A node of the tree, whose ancestors satisfy `Q`.
  module _ (Q : List Ancestor → Type 0) where
    pub record IsNode (n : Node) : Type 0 where
      pub ancestors : Q n.ancestors
      pub own : P n.relation_name n.relation_spec
      pub below : AllBelow n.relation_spec

    insert_sorted-All :
        (n : Node) (ns : List Node) → IsNode n → All IsNode ns → All IsNode (insert_sorted n ns)
    unfolding insert_sorted
    insert_sorted-All n [] h hs = (h, tt)
    insert_sorted-All n (m ∷ ms) h hs =
        elim (Bool-cases (text_ltb m.relation_name n.relation_name)) [
          | inl e ↦ rw e (hs.0, insert_sorted-All n ms h hs.1)
          | inr e ↦ rw e (h, hs)
        ]

    sort_nodes-All : (ns : List Node) → All IsNode ns → All IsNode (sort_nodes ns)
    unfolding sort_nodes
    sort_nodes-All [] h = tt
    sort_nodes-All (n ∷ ns) h = insert_sorted-All n (sort_nodes ns) h.0 (sort_nodes-All ns h.1)

    nodes_of-All :
        (level : ℕ) (ancestors : List Ancestor) (m : RelationMap)
        → Q ancestors
        → AllOf m
        → All IsNode (nodes_of level ancestors m)
    unfolding nodes_of AllOf
    nodes_of-All level ancestors RelationMap.end q h = tt
    nodes_of-All level ancestors (relation name r m) q h =
        (record { ancestors = q; own = h.0; below = h.1.0 }, nodes_of-All level ancestors m q h.1.1)

    pub sorted_nodes-All :
        (level : ℕ) (ancestors : List Ancestor) (o : ObjectsSpec)
        → Q ancestors
        → AllRelations o
        → All IsNode (sorted_nodes level ancestors o)
    unfolding sorted_nodes AllRelations
    sorted_nodes-All level ancestors absent q h = tt
    sorted_nodes-All level ancestors (shape id cluster path json m) q h =
        sort_nodes-All _ (nodes_of-All level ancestors m q h)

-- What is collected for a relation below a transitive one, unless its projection is refused.
pub visit_sub_relation_rule :
    (c : Codec) (dialect : Text) (S : Collected → Type 0) (cte : Text) (level n : ℕ) (name : Text)
    (r : RelationSpec) (s : Collected)
    → ((p : Text)
        → build_projection c dialect (spec_objects r) (level_alias n) ≡ some p
        → S (
            add_subquery
              (sub_subquery c dialect cte level n name r p)
              (relation_join c dialect name cte (level_alias n) n r).extra.args
              s))
    → OrElse Unit S (visit_sub_relation c dialect cte level n name r s)
unfolding visit_sub_relation
visit_sub_relation_rule c dialect S cte level n name r s h =
    OrElse-map Unit S _ _
      (OrElse-intro _ (build_projection c dialect (spec_objects r) (level_alias n)) h)

-- To show `S` of what the loop collects, show that each kind of round keeps it, for the nodes of a
-- tree of which `P` holds and whose ancestors satisfy `Q`.
module _ (c : Codec) (dialect : Text) (max_depth : ℤ) (E : Type 0)
    (P : Text → RelationSpec → Type 0) (Q : List Ancestor → Type 0) (S : Collected → Type 0) where
  abbrev pub KeepsTransitive : Type 0
  KeepsTransitive =
      (n : Node) (s : Collected)
      → is_transitive n.relation_name ≡ true
      → IsNode P Q n
      → S s
      → OrElse E S (visit_transitive c dialect max_depth n s)

  abbrev pub KeepsDirect : Type 0
  KeepsDirect =
      (n : Node) (s : Collected)
      → IsNode P Q n
      → S s
      → Q (own_ancestors c dialect n s.counter)
        × OrElse E
            (λ p. S (
              next_level (
                add_subquery (direct_subquery c dialect n s.counter p)
                  (node_join c dialect n s.counter).extra.args s)))
            (build_projection c dialect (spec_objects n.relation_spec) (level_alias s.counter))

  abbrev Kept : List Node → Collected → Type 0
  Kept queue s = All (IsNode P Q) queue × S s

  module _ (transitive : KeepsTransitive) (direct : KeepsDirect) where
    visit_direct-Visited :
        (n : Node) (queue : List Node) (s : Collected)
        → Kept (n ∷ queue) s
        → Visited c dialect max_depth E Kept queue (visit_direct c dialect n s)
    unfolding visit_direct
    visit_direct-Visited n queue s (h, k) =
        let (q, after) = direct n s h.0 k in
        elim (Option-cases
          (build_projection c dialect (spec_objects n.relation_spec) (level_alias s.counter))) [
            | inl e ↦ rw (e, visit_direct) (rw e at after)
            | inr (p, e) ↦
                rw (e, visit_direct)
                  (
                    All-append (IsNode P Q) queue _ h.1 (
                        sorted_nodes-All P Q (suc n.level) (own_ancestors c dialect n s.counter)
                          (spec_objects n.relation_spec) q
                          (AllBelow-objects P n.relation_spec h.0.below)),
                    rw e at after,
                  )
          ]

    pub visit-Visited : Step c dialect max_depth E Kept
    unfolding visit
    visit-Visited n queue s level (h, k) = elim (Bool-cases (is_transitive n.relation_name)) [
      | inl t ↦ elim (Option-cases (visit_transitive c dialect max_depth n s)) [
        | inl e ↦ rw (t, e, visit) (rw e at (transitive n s t h.0 k))
        | inr (s', e) ↦
            rw (t, e, visit)
              (All-append (IsNode P Q) queue [] h.1 tt, rw e at (transitive n s t h.0 k))
      ]
      | inr t ↦ rw t (visit_direct-Visited n queue s (h, k))
    ]

    pub drain-Ends :
        (fuel : ℕ) (queue : List Node) (s : Collected)
        → All (IsNode P Q) queue
        → S s
        → queue_weight queue ≤ fuel
        → Ends c dialect max_depth E (λ _. S) (drain c dialect max_depth fuel queue s)
    drain-Ends fuel queue s h k le =
        let skip : Skip c dialect max_depth E Kept = λ n queue s kept. (kept.0.1, kept.1) in
        forget (drain c dialect max_depth fuel queue s)
          (drain_rule c dialect max_depth E Kept skip visit-Visited fuel queue s (h, k) le)
      where
        forget :
            (o : Outcome)
            → Ends c dialect max_depth E Kept o
            → Ends c dialect max_depth E (λ _. S) o
        forget (finished s') i = i.1
        forget failed i = i
        forget out_of_fuel i = i
