-- ===== src/Engine/Relational/Bounds.antt =====
-- generateWithRelations: the loop ends, and the number of branches of its UNION ALL.
use kube_graphql.Common.{
  Bool-cases, OrElse, OrElse-map, OrElse-bind, OrElse-intro, OrElse-weaken, length, length-append,
  ℤ, Text, ℕ, suc, ◌+◌, ◌≤◌, ◌≡◌, ◌∙◌, inl, inr, none, some, List, [], ◌∷◌, ◌++◌, arith,
}
use kube_graphql.Api.{ObjectsSpec, absent, shape, RelationMap, relation, QuerySpec}
use kube_graphql.Engine.Codec.{Codec}
use kube_graphql.Engine.Projection.{build_projection}
use kube_graphql.Engine.Relational.{
  Outcome, finished, failed, out_of_fuel, started, collect_relations, generate_fuel,
}
use kube_graphql.Engine.Relational.Loop.{
  queue_weight, queue_weight-append, sorted_nodes-weight, count_of-objects, Ends, Step, Skip,
  drain_rule,
}
use kube_graphql.Engine.Relational.Nodes.{visit_sub_relation_rule}
use kube_graphql.Engine.Relational.Queue.{Node, sorted_nodes}
use kube_graphql.Engine.Relational.Visit.{
  Collected, add_subquery, level_alias, spec_objects, relations_of, add_transitive, next_level,
  transitive_request, visit_sub_relations, visit_transitive, visit_direct, visit,
}
use kube_graphql.Engine.Relations.{is_transitive, base_relation}
use kube_graphql.Engine.Sql.{Arg}
use kube_graphql.Engine.Transitive.{build_transitive_cte}
use kube_graphql.Engine.Validate.{
  max_relation_blocks, relation_count, count_relation_blocks, count_of, validate,
}
use kube_graphql.Engine.Validate.Bounds.{validate-IsValidated}

-- The loop ends without an error with at most `n` subqueries, or with an error.
abbrev pub HasBranches : ℕ → Outcome → Type 0
HasBranches n (finished s) = length s.subqueries ≤ n
HasBranches n failed = Unit
HasBranches n out_of_fuel = ⊥

HasBranches-weaken : {m n : ℕ} (o : Outcome) → m ≤ n → HasBranches m o → HasBranches n o
HasBranches-weaken (finished s) le h = omega arith
HasBranches-weaken failed le h = tt
HasBranches-weaken out_of_fuel le h = h

-- At most `n` subqueries more.
abbrev Adds : ℕ → Collected → Collected → Type 0
Adds n s t = length t.subqueries ≤ length s.subqueries + n

add_subquery-Adds :
    (sql : Text) (args : List Arg) (s : Collected) → Adds 1 s (add_subquery sql args s)
unfolding add_subquery
add_subquery-Adds sql args s = omega (arith, length-append s.subqueries (sql ∷ []))

relations_of-count : (o : ObjectsSpec) → relation_count (relations_of o) ≤ count_relation_blocks o
unfolding relations_of relation_count count_relation_blocks
relations_of-count absent = omega arith
relations_of-count (shape id cluster path json m) = omega arith

module _ (c : Codec) (dialect : Text) where
  visit_sub_relations-Adds :
      (cte : Text) (level n : ℕ) (m : RelationMap) (s : Collected)
      → OrElse Unit (Adds (relation_count m) s) (visit_sub_relations c dialect cte level n m s)
  unfolding visit_sub_relations relation_count
  visit_sub_relations-Adds cte level n RelationMap.end s = omega arith
  visit_sub_relations-Adds cte level n (relation name r m) s =
      let rest = visit_sub_relations-Adds cte level n m in
      elim (Bool-cases (is_transitive name)) [
        | inl t ↦
            rw (t, visit_sub_relations)
              (OrElse-weaken (Adds (relation_count m) s) Unit _ _ (rest s) (λ s' h. omega arith))
        | inr t ↦
            rw (t, visit_sub_relations)
              (OrElse-bind Unit (Adds 1 s) _ _ _
                (visit_sub_relation_rule c dialect (Adds 1 s) cte level n name r s
                  (λ p _. add_subquery-Adds _ _ s))
                (λ s' h.
                  OrElse-weaken (Adds (relation_count m) s') Unit _ _ (rest s')
                    (λ s'' k. omega arith)))
      ]

  visit_transitive-Adds :
      (max_depth : ℤ) (n : Node) (s : Collected)
      → OrElse Unit
          (Adds (suc (count_of n.relation_spec)) s)
          (visit_transitive c dialect max_depth n s)
  unfolding visit_transitive
  visit_transitive-Adds max_depth n s =
      let request = transitive_request max_depth n s.counter in
      let m = relations_of (spec_objects n.relation_spec) in
      OrElse-bind Unit (λ _. Unit) _ _
        (build_transitive_cte c (base_relation n.relation_name) dialect request)
        (OrElse-intro _ _ (λ _ _. tt))
        (λ t _.
          let s' = add_transitive t s in
          OrElse-bind Unit (Adds (relation_count m) s') (Adds (suc (count_of n.relation_spec)) s)
            (λ s''. some (next_level s'')) _
            (visit_sub_relations-Adds request.cte_name (suc n.level) (suc s.counter) m s')
            (λ s'' h.
              unfold add_transitive next_level in
              omega (
                arith,
                length-append s.subqueries (t.select_sql ∷ []),
                relations_of-count (spec_objects n.relation_spec),
                count_of-objects n.relation_spec,
              )))

  visit_direct-Adds :
      (n : Node) (s : Collected)
      → OrElse Unit
          (λ r. Adds 1 s r.0 × (queue_weight r.1 ≡ count_of n.relation_spec))
          (visit_direct c dialect n s)
  unfolding visit_direct
  visit_direct-Adds n s =
      OrElse-bind Unit (λ _. Unit) _ _
        (build_projection c dialect (spec_objects n.relation_spec) (level_alias s.counter))
        (OrElse-intro _ _ (λ _ _. tt))
        (λ p _. (
          unfold next_level in add_subquery-Adds _ _ s,
          sorted_nodes-weight _ _ (spec_objects n.relation_spec) ∙ count_of-objects n.relation_spec,
        ))

  -- The subqueries with what may still be added.
  abbrev Fits : ℕ → List Node → Collected → Type 0
  Fits total queue s = length s.subqueries + queue_weight queue ≤ total

  Fits-skip : (max_depth : ℤ) (total : ℕ) → Skip c dialect max_depth Unit (Fits total)
  unfolding queue_weight
  Fits-skip max_depth total n queue s h = omega arith

  Fits-step : (max_depth : ℤ) (total : ℕ) → Step c dialect max_depth Unit (Fits total)
  unfolding visit
  Fits-step max_depth total n queue s level h = elim (Bool-cases (is_transitive n.relation_name)) [
    | inl t ↦
        rw (t, visit)
          (OrElse-map Unit (λ r. Fits total (queue ++ r.1) r.0) (λ s'. (s', [])) _
            (OrElse-weaken (Adds (suc (count_of n.relation_spec)) s) Unit
              (λ s'. Fits total (queue ++ []) s') (visit_transitive c dialect max_depth n s)
              (visit_transitive-Adds max_depth n s)
              (λ s' k. unfold queue_weight in omega (arith, queue_weight-append queue []))))
    | inr t ↦
        rw (t, visit)
          (OrElse-weaken _ Unit (λ r. Fits total (queue ++ r.1) r.0) (visit_direct c dialect n s)
            (visit_direct-Adds n s)
            (λ r k. unfold queue_weight in omega (arith, queue_weight-append queue r.1)))
  ]

  drain-HasBranches :
      (max_depth : ℤ) (total : ℕ) (o : Outcome)
      → Ends c dialect max_depth Unit (Fits total) o
      → HasBranches total o
  unfolding queue_weight
  drain-HasBranches max_depth total (finished s) h = omega arith
  drain-HasBranches max_depth total failed h = tt
  drain-HasBranches max_depth total out_of_fuel h = h

  -- The loop ends for every query, with an error or with at most one subquery for each relation of
  -- the query.
  pub collect_relations-HasBranches :
      (q : QuerySpec)
      → HasBranches
          (count_relation_blocks q.objects)
          (collect_relations c dialect q (generate_fuel q))
  unfolding collect_relations generate_fuel
  collect_relations-HasBranches q =
      let total = count_relation_blocks q.objects in
      let weight = sorted_nodes-weight 1 [] q.objects in
      drain-HasBranches q.max_depth total _ (
        drain_rule c dialect q.max_depth Unit (Fits total) (Fits-skip q.max_depth total)
          (Fits-step q.max_depth total) total (sorted_nodes 1 [] q.objects) (started c dialect q)
          (unfold started in omega (arith, weight)) (omega (arith, weight)))

  -- The SQL of a query that validation accepts has at most 10 branches besides the root's.
  pub validate-HasBranches :
      (q : QuerySpec)
      → (validate q).0 ≡ none
      → HasBranches max_relation_blocks
          (collect_relations c dialect (validate q).1 (generate_fuel (validate q).1))
  validate-HasBranches q h =
      HasBranches-weaken _ (validate-IsValidated q h).rest.blocks
        (collect_relations-HasBranches (validate q).1)
