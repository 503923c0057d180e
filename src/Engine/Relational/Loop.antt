-- ===== src/Engine/Relational/Loop.antt =====
-- The loop of generateWithRelations: the weight of its queue, and a rule for its invariants.
use kube_graphql.Common.{
  Bool-cases, Option-cases, ℤ, pos, ltb_ℤ, Text, ℕ, zero, suc, ◌+◌, ◌≤◌, ◌≡◌, refl, ap, ◌∙◌, inl,
  inr, false, Option, none, some, List, [], ◌∷◌, ◌++◌, arith,
}
use kube_graphql.Api.{ObjectsSpec, absent, shape, RelationMap, relation, RelationSpec, spec}
use kube_graphql.Engine.Codec.{Codec}
use kube_graphql.Engine.Projection.{build_projection}
use kube_graphql.Engine.Relational.{Outcome, finished, failed, out_of_fuel, drain}
use kube_graphql.Engine.Relational.Queue.{
  Node, text_ltb, insert_sorted, sort_nodes, nodes_of, sorted_nodes,
}
use kube_graphql.Engine.Relational.Visit.{
  Collected, level_alias, spec_objects, visit_transitive, own_ancestors, visit_direct, visit,
}
use kube_graphql.Engine.Relations.{is_transitive}
use kube_graphql.Engine.Transitive.{Ancestor}
use kube_graphql.Engine.Validate.{relation_count, count_relation_blocks, count_below, count_of}

-- A node counts for itself and for the relations below it.
unfoldable pub queue_weight : List Node → ℕ
queue_weight [] = 0
queue_weight (n ∷ ns) = suc (count_of n.relation_spec) + queue_weight ns

pub queue_weight-append :
    (ns ms : List Node) → queue_weight (ns ++ ms) ≡ queue_weight ns + queue_weight ms
unfolding queue_weight
queue_weight-append [] ms = omega arith
queue_weight-append (n ∷ ns) ms = omega (arith, queue_weight-append ns ms)

insert_sorted-weight :
    (n : Node) (ns : List Node) → queue_weight (insert_sorted n ns) ≡ queue_weight (n ∷ ns)
unfolding insert_sorted queue_weight
insert_sorted-weight n [] = refl
insert_sorted-weight n (m ∷ ms) = elim (Bool-cases (text_ltb m.relation_name n.relation_name)) [
  | inl e ↦ rw e (unfold queue_weight in omega (arith, insert_sorted-weight n ms))
  | inr e ↦ rw e (unfold queue_weight in refl)
]

sort_nodes-weight : (ns : List Node) → queue_weight (sort_nodes ns) ≡ queue_weight ns
unfolding sort_nodes queue_weight
sort_nodes-weight [] = refl
sort_nodes-weight (n ∷ ns) =
    insert_sorted-weight n (sort_nodes ns)
    ∙ (unfold queue_weight in ap (λ w. suc (count_of n.relation_spec) + w) (sort_nodes-weight ns))

nodes_of-weight :
    (level : ℕ) (ancestors : List Ancestor) (m : RelationMap)
    → queue_weight (nodes_of level ancestors m) ≡ relation_count m + count_below m
unfolding nodes_of queue_weight relation_count count_below
nodes_of-weight level ancestors RelationMap.end = refl
nodes_of-weight level ancestors (relation name r m) =
    omega (arith, nodes_of-weight level ancestors m)

pub sorted_nodes-weight :
    (level : ℕ) (ancestors : List Ancestor) (o : ObjectsSpec)
    → queue_weight (sorted_nodes level ancestors o) ≡ count_relation_blocks o
unfolding sorted_nodes count_relation_blocks
sorted_nodes-weight level ancestors absent = unfold queue_weight in refl
sorted_nodes-weight level ancestors (shape id cluster path json m) =
    sort_nodes-weight (nodes_of level ancestors m) ∙ nodes_of-weight level ancestors m

pub count_of-objects : (r : RelationSpec) → count_relation_blocks (spec_objects r) ≡ count_of r
unfolding spec_objects count_of
count_of-objects (spec limit filters objects) = refl

-- The children of a round weigh at most `w`.
abbrev Weighs : ℕ → Option (Collected × List Node) → Type 0
Weighs w none = Unit
Weighs w (some (s, children)) = queue_weight children ≤ w

module _ (c : Codec) (dialect : Text) (max_depth : ℤ) where
  visit_direct-Weighs :
      (n : Node) (s : Collected) → Weighs (count_of n.relation_spec) (visit_direct c dialect n s)
  unfolding visit_direct
  visit_direct-Weighs n s =
      elim (Option-cases
        (build_projection c dialect (spec_objects n.relation_spec) (level_alias s.counter))) [
          | inl e ↦ rw (e, visit_direct) tt
          | inr (p, e) ↦
              rw (e, visit_direct)
                (omega (
                  arith,
                  sorted_nodes-weight (suc n.level) (own_ancestors c dialect n s.counter)
                      (spec_objects n.relation_spec),
                  count_of-objects n.relation_spec,
                ))
        ]

  -- A round queues no more than lies below its node.
  visit-Weighs :
      (n : Node) (s : Collected) → Weighs (count_of n.relation_spec) (visit c dialect max_depth n s)
  unfolding visit
  visit-Weighs n s = elim (Bool-cases (is_transitive n.relation_name)) [
    | inl t ↦ elim (Option-cases (visit_transitive c dialect max_depth n s)) [
      | inl e ↦ rw (t, e, visit) tt
      | inr (s', e) ↦ rw (t, e, visit) (unfold queue_weight in omega arith)
    ]
    | inr t ↦ rw t (visit_direct-Weighs n s)
  ]

  -- What holds of the result of a round, and of the end of the loop: `E` of an error, `I` of the
  -- queue and of what is collected.
  module _ (E : Type 0) (I : List Node → Collected → Type 0) where
    abbrev pub Visited : List Node → Option (Collected × List Node) → Type 0
    Visited queue none = E
    Visited queue (some (s, children)) = I (queue ++ children) s

    abbrev pub Ends : Outcome → Type 0
    Ends (finished s) = I [] s
    Ends failed = E
    Ends out_of_fuel = ⊥

    abbrev pub Step : Type 0
    Step =
        (n : Node) (queue : List Node) (s : Collected)
        → ltb_ℤ max_depth (pos n.level) ≡ false
        → I (n ∷ queue) s
        → Visited queue (visit c dialect max_depth n s)

    abbrev pub Skip : Type 0
    Skip = (n : Node) (queue : List Node) (s : Collected) → I (n ∷ queue) s → I queue s

    -- With fuel for the weight of the queue the loop ends, and an invariant holds at its end.
    pub drain_rule :
        Skip
        → Step
        → (fuel : ℕ) (queue : List Node) (s : Collected) → I queue s
        → queue_weight queue ≤ fuel
        → Ends (drain c dialect max_depth fuel queue s)
    unfolding drain queue_weight
    drain_rule skip step fuel [] s i h = i
    drain_rule skip step zero (n ∷ queue) s i h = omega arith
    drain_rule skip step (suc fuel) (n ∷ queue) s i h =
        elim (Bool-cases (ltb_ℤ max_depth (pos n.level))) [
          | inl e ↦ rw e (drain_rule skip step fuel queue s (skip n queue s i) (omega arith))
          | inr e ↦ elim (Option-cases (visit c dialect max_depth n s)) [
            | inl none_of ↦
                let after : Visited queue none = rw none_of at (step n queue s e i) in
                rw (e, none_of) after
            | inr ((s', children), found) ↦
                let after : I (queue ++ children) s' = rw found at (step n queue s e i) in
                let weight : queue_weight children ≤ count_of n.relation_spec =
                  rw found at (visit-Weighs n s) in
                rw (e, found)
                  (drain_rule skip step fuel (queue ++ children) s' after
                    (omega (arith, queue_weight-append queue children)))
          ]
        ]
