-- ===== src/Engine/Relational/Success.antt =====
-- generateWithRelations and Generate: they return, and without an error for a query whose
-- projections decode and whose transitive relations are supported.
use kube_graphql.Common.{
  Bool-cases, Option-cases, ◌>>=◌, OrElse, OrElse-map, OrElse-bind, ℤ, Text, codes, text_eq,
  is_empty, ℕ, suc, ◌≡◌, refl, ◌⊎◌, inl, inr, true, false, Option, none, some, [], ◌∷◌, arith,
}
use kube_graphql.Api.{ObjectsSpec, absent, shape, RelationMap, relation, RelationSpec, QuerySpec}
use kube_graphql.Engine.Codec.{Json, Codec}
use kube_graphql.Engine.Filter.Labels.{is_postgres}
use kube_graphql.Engine.Projection.{build_projection_sql, build_projection}
use kube_graphql.Engine.Relational.{
  Outcome, finished, failed, out_of_fuel, started, collect_relations, generate_fuel, Generated,
  generated, generator_error, out_of_steps, finish, generate_with_relations, asks_relations,
  of_root, generate,
}
use kube_graphql.Engine.Relational.Loop.{sorted_nodes-weight, Ends}
use kube_graphql.Engine.Relational.Nodes.{
  AllRelations, AllOf, AllBelow, AllBelow-objects, AllRelations-map, sorted_nodes-All,
  KeepsTransitive, KeepsDirect, drain-Ends,
}
use kube_graphql.Engine.Relational.Queue.{Node, sorted_nodes}
use kube_graphql.Engine.Relational.Visit.{
  root_alias, Collected, level_alias, spec_objects, relations_of, add_transitive,
  transitive_request, visit_sub_relation, visit_sub_relations, visit_transitive,
}
use kube_graphql.Engine.Relations.{
  rel_owners, rel_descendants, rel_linked, is_transitive, base_relation,
}
use kube_graphql.Engine.Root.{GeneratedQuery, generate_root_only}
use kube_graphql.Engine.Transitive.{TransitiveRequest, join_cond, build_transitive_cte}
use kube_graphql.Engine.Validate.{count_relation_blocks}

-- The projection of an ObjectsSpec is empty or decodes.
abbrev pub IsReadable : Codec → ObjectsSpec → Type 0
IsReadable c absent = Unit
IsReadable c (shape id cluster path none m) = Unit
IsReadable c (shape id cluster path (some raw) m) =
    is_empty raw ≡ false → (json : Json) × (c.unmarshal_any raw ≡ some json)

-- A relation of which no step fails: its projection decodes, and if it is transitive, it is one of
-- three.
pub record IsSupported (c : Codec) (name : Text) (r : RelationSpec) : Type 0 where
  pub projection : IsReadable c (spec_objects r)
  pub transitive :
      is_transitive name ≡ true
      → ((base_relation name ≡ rel_descendants) ⊎ (base_relation name ≡ rel_owners))
        ⊎ (base_relation name ≡ rel_linked)

-- There is a value.
abbrev IsSome {ℓ} : {A : Type ℓ} → Option A → Type 0
IsSome o = OrElse ⊥ (λ _. Unit) o

-- The generator returns a query.
abbrev Yields : Generated → Type 0
Yields (generated g) = Unit
Yields generator_error = ⊥
Yields out_of_steps = ⊥

yielded : (r : Generated) → Yields r → (g : GeneratedQuery) × (r ≡ generated g)
yielded (generated g) h = (g, refl)
yielded generator_error h = absurd h
yielded out_of_steps h = absurd h

and_then {ℓ κ} :
    {A : Type ℓ} {B : Type κ} (f : A → Option B) (o : Option A)
    → IsSome o
    → ((a : A) → IsSome (f a))
    → IsSome (o >>= f)
and_then f o h k = OrElse-bind ⊥ (λ _. Unit) (λ _. Unit) f o h (λ a _. k a)

module _ (c : Codec) (dialect : Text) where
  build_projection_sql-IsSome :
      (raw : Text) (alias : Text)
      → (is_empty raw ≡ false → (json : Json) × (c.unmarshal_any raw ≡ some json))
      → IsSome (build_projection_sql c raw dialect alias)
  unfolding build_projection_sql
  build_projection_sql-IsSome [] alias h = tt
  build_projection_sql-IsSome (b ∷ raw) alias h =
      let (json, e) = h refl in
      elim (Bool-cases (is_postgres dialect)) [
        | inl d ↦ rw (e, d, build_projection_sql) tt
        | inr d ↦ rw (e, d, build_projection_sql) tt
      ]

  build_projection-IsSome :
      (o : ObjectsSpec) (alias : Text)
      → IsReadable c o
      → IsSome (build_projection c dialect o alias)
  unfolding build_projection
  build_projection-IsSome absent alias h = tt
  build_projection-IsSome (shape id cluster path none m) alias h = tt
  build_projection-IsSome (shape id cluster path (some raw) m) alias h =
      elim (Bool-cases (is_empty raw)) [
        | inl e ↦ rw e tt
        | inr e ↦ rw e (build_projection_sql-IsSome raw alias h)
      ]

  join_cond-IsSome :
      (base : Text)
      → ((base ≡ rel_descendants) ⊎ (base ≡ rel_owners)) ⊎ (base ≡ rel_linked)
      → IsSome (join_cond base)
  unfolding join_cond text_eq codes
  join_cond-IsSome base (inl (inl e)) = rw e tt
  join_cond-IsSome base (inl (inr e)) = rw e tt
  join_cond-IsSome base (inr e) = rw e tt

  build_transitive_cte-IsSome :
      (base : Text) (r : TransitiveRequest)
      → IsSome (join_cond base)
      → IsReadable c r.objects
      → IsSome (build_transitive_cte c base dialect r)
  unfolding build_transitive_cte
  build_transitive_cte-IsSome base r h k = and_then _ (join_cond base) h (λ cond.
      and_then _ _ (build_projection-IsSome r.objects (codes "curr") k) (λ projection.
        and_then _ _ (build_projection-IsSome r.objects (codes "next") k) (λ next. tt)))

  visit_sub_relation-IsSome :
      (cte : Text) (level n : ℕ) (name : Text) (r : RelationSpec) (s : Collected)
      → IsSupported c name r
      → IsSome (visit_sub_relation c dialect cte level n name r s)
  unfolding visit_sub_relation
  visit_sub_relation-IsSome cte level n name r s h =
      OrElse-map ⊥ (λ _. Unit) _ _
        (build_projection-IsSome (spec_objects r) (level_alias n) h.projection)

  visit_sub_relations-IsSome :
      (cte : Text) (level n : ℕ) (m : RelationMap) (s : Collected)
      → AllOf (IsSupported c) m
      → IsSome (visit_sub_relations c dialect cte level n m s)
  unfolding visit_sub_relations AllOf
  visit_sub_relations-IsSome cte level n RelationMap.end s h = tt
  visit_sub_relations-IsSome cte level n (relation name r m) s h =
      elim (Bool-cases (is_transitive name)) [
        | inl t ↦ rw (t, visit_sub_relations) (visit_sub_relations-IsSome cte level n m s h.1.1)
        | inr t ↦
            rw (t, visit_sub_relations)
              (and_then _ _ (visit_sub_relation-IsSome cte level n name r s h.0)
                (λ s'. visit_sub_relations-IsSome cte level n m s' h.1.1))
      ]

  visit_transitive-IsSome :
      (max_depth : ℤ) (n : Node) (s : Collected)
      → is_transitive n.relation_name ≡ true
      → IsSupported c n.relation_name n.relation_spec
      → AllBelow (IsSupported c) n.relation_spec
      → IsSome (visit_transitive c dialect max_depth n s)
  unfolding visit_transitive
  visit_transitive-IsSome max_depth n s t h k =
      let request = transitive_request max_depth n s.counter in
      and_then _ _
        (build_transitive_cte-IsSome (base_relation n.relation_name) request
          (join_cond-IsSome _ (h.transitive t)) (unfold transitive_request in h.projection))
        (λ built.
          and_then _ _
            (visit_sub_relations-IsSome request.cte_name (suc n.level) (suc s.counter)
              (relations_of (spec_objects n.relation_spec)) (add_transitive built s)
              (AllRelations-map (IsSupported c) _ (AllBelow-objects (IsSupported c) _ k)))
            (λ s'. tt))

  module _ (max_depth : ℤ) where
    keeps_transitive : KeepsTransitive c dialect max_depth ⊥ (IsSupported c) (λ _. Unit) (λ _. Unit)
    keeps_transitive n s t h k = visit_transitive-IsSome max_depth n s t h.own h.below

    keeps_direct : KeepsDirect c dialect max_depth ⊥ (IsSupported c) (λ _. Unit) (λ _. Unit)
    keeps_direct n s h k = (
      tt,
      build_projection-IsSome (spec_objects n.relation_spec) (level_alias s.counter)
          h.own.projection,
    )

  collect_relations-Ends :
      (q : QuerySpec)
      → AllRelations (IsSupported c) q.objects
      → Ends c dialect q.max_depth ⊥ (λ _ _. Unit) (collect_relations c dialect q (generate_fuel q))
  unfolding collect_relations generate_fuel
  collect_relations-Ends q h =
      drain-Ends c dialect q.max_depth ⊥ (IsSupported c) (λ _. Unit) (λ _. Unit)
        (keeps_transitive q.max_depth) (keeps_direct q.max_depth) (count_relation_blocks q.objects)
        (sorted_nodes 1 [] q.objects) (started c dialect q)
        (sorted_nodes-All (IsSupported c) (λ _. Unit) 1 [] q.objects tt h) tt
        (omega (arith, sorted_nodes-weight 1 [] q.objects))

  finish-Yields :
      (q : QuerySpec) (p : Text) (o : Outcome)
      → Ends c dialect q.max_depth ⊥ (λ _ _. Unit) o
      → Yields (finish c dialect q p o)
  unfolding finish
  finish-Yields q p (finished s) h = tt
  finish-Yields q p failed h = h
  finish-Yields q p out_of_fuel h = h

  generate_with_relations-Yields :
      (q : QuerySpec)
      → IsReadable c q.objects
      → AllRelations (IsSupported c) q.objects
      → Yields (generate_with_relations c dialect q)
  unfolding generate_with_relations
  generate_with_relations-Yields q h k =
      elim (Option-cases (build_projection c dialect q.objects root_alias)) [
        | inl e ↦ absurd (rw e at (build_projection-IsSome q.objects root_alias h))
        | inr (p, e) ↦
            rw (e, generate_with_relations) (finish-Yields q p _ (collect_relations-Ends q k))
      ]

  generate_root_only-Yields :
      (q : QuerySpec) → IsReadable c q.objects → Yields (of_root (generate_root_only c dialect q))
  unfolding generate_root_only of_root
  generate_root_only-Yields q h =
      elim (Option-cases (build_projection c dialect q.objects (codes "obj"))) [
        | inl e ↦ absurd (rw e at (build_projection-IsSome q.objects (codes "obj") h))
        | inr (p, e) ↦ rw (e, generate_root_only) tt
      ]

  generate-Yields :
      (q : QuerySpec)
      → IsReadable c q.objects
      → AllRelations (IsSupported c) q.objects
      → Yields (generate c dialect q)
  unfolding generate
  generate-Yields q h k = elim (Bool-cases (asks_relations q.objects)) [
    | inl e ↦ rw e (generate_with_relations-Yields q h k)
    | inr e ↦ rw e (generate_root_only-Yields q h)
  ]

  -- A query whose own projection is empty or decodes, and whose relations at any depth are
  -- supported, has a generated query: there is no error, and the fuel is enough.
  pub generate_succeeds :
      (q : QuerySpec)
      → IsReadable c q.objects
      → AllRelations (IsSupported c) q.objects
      → (g : GeneratedQuery) × (generate c dialect q ≡ generated g)
  generate_succeeds q h k = yielded (generate c dialect q) (generate-Yields q h k)
