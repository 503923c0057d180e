-- ===== src/Engine/Relational/Arguments.antt =====
-- generateWithRelations and Generate: placeholders and arguments of both SQL texts.
use mathlib.Core.Path.{subst}
use kube_graphql.Common.{
  Bool-cases, Option-cases, length, length-append, Text, codes, replace_all, ◌+◌, ◌≡◌, refl, inl,
  inr, false, List, [], ◌∷◌, ◌++◌, arith,
}
use kube_graphql.Api.{QuerySpec}
use kube_graphql.Engine.Codec.{Codec}
use kube_graphql.Engine.Order.{build_order_by, build_cursor_filter}
use kube_graphql.Engine.Order.Cursor.{build_cursor_filter-marks}
use kube_graphql.Engine.Projection.{build_projection}
use kube_graphql.Engine.Projection.Plain.{build_projection-marks}
use kube_graphql.Engine.Relational.{
  Outcome, finished, failed, out_of_fuel, root_order, root_conditions, root_inner, with_clause,
  root_select, union_all, started, relational_query, collect_relations, generate_fuel, Generated,
  generated, generator_error, out_of_steps, finish, generate_with_relations, asks_relations,
  of_root, generate,
}
use kube_graphql.Engine.Relational.Loop.{sorted_nodes-weight, Ends}
use kube_graphql.Engine.Relational.Nodes.{AllRelations, sorted_nodes-All, drain-Ends}
use kube_graphql.Engine.Relational.Placeholders.{replace_from-IsPlain, l0-IsPlain, IsPlainRelation}
use kube_graphql.Engine.Relational.Queue.{sorted_nodes}
use kube_graphql.Engine.Relational.Rounds.{IsBalanced, keeps_transitive, keeps_direct}
use kube_graphql.Engine.Relational.Visit.{root_alias, root_path, Collected}
use kube_graphql.Engine.Root.{GeneratedQuery, cursor_args, generate_root_only}
use kube_graphql.Engine.Root.Arguments.{BindsAll, generate_root_only-marks}
use kube_graphql.Engine.Root.Conditions.{build_root_clauses, root_joins}
use kube_graphql.Engine.Root.Placeholders.{
  marks-all_marks, HasPlainNames, build_root_clauses-Exceeds,
}
use kube_graphql.Engine.Root.Texts.{
  format-marks, build_path_expr-marks, build_select_cols-marks, spaced-marks, where_text-marks,
  offset_text-marks, build_order_by-marks, root_joins-marks, count_text-marks,
}
use kube_graphql.Engine.Sql.{
  Arg, marks, all_marks, IsPlain, marks-append, all_marks-append, marks-join, marks-concat,
}
use kube_graphql.Engine.Transitive.Placeholders.{ArePlain}
use kube_graphql.Engine.Validate.{count_relation_blocks}

-- The keys and the names that a query writes into the SQL hold no question mark, and in PostgreSQL
-- no filter of a relation has an Exists or a DoesNotExist expression.
pub record HasPlainTree (c : Codec) (dialect : Text) (q : QuerySpec) : Type 0 where
  pub names : HasPlainNames c q
  pub relations : AllRelations (IsPlainRelation c dialect) q.objects

root_order-marks : (q : QuerySpec) → IsPlain (root_order q)
unfolding root_order replace_all
root_order-marks q =
    replace_from-IsPlain (codes "obj.") (root_alias ++ codes ".") 0 (build_order_by q)
      (unfold marks codes in refl) (build_order_by-marks q)

root_conditions-marks :
    (ws : List Text) (cursor : Text × List Arg)
    → marks cursor.0 ≡ length cursor.1
    → all_marks (root_conditions ws cursor.0) ≡ all_marks ws + length (cursor_args cursor)
unfolding root_conditions cursor_args
root_conditions-marks ws ([], args) h = omega arith
root_conditions-marks ws (b ∷ s, args) h =
    omega (arith, h, all_marks-append ws ((b ∷ s) ∷ []), marks-all_marks (b ∷ s))

with_clause-marks :
    (inner : Text) (ctes : List Text)
    → marks (with_clause inner ctes) ≡ marks inner + all_marks ctes
unfolding with_clause
with_clause-marks inner [] = rw marks-concat (unfold all_marks marks codes in omega arith)
with_clause-marks inner (cte ∷ ctes) = rw marks-concat (
    unfold all_marks marks codes in
    omega (arith, marks-join (cte ∷ ctes) (codes ", ") (unfold marks codes in refl)))

branch-marks : (q rest : Text) → marks (codes " UNION ALL " ++ (q ++ rest)) ≡ marks q + marks rest
branch-marks q rest = simp marks-append (unfold marks codes in omega arith)

union_all-marks : (qs : List Text) → marks (union_all qs) ≡ all_marks qs
unfolding union_all all_marks
union_all-marks [] = unfold marks in refl
union_all-marks (q ∷ qs) = omega (arith, branch-marks q (union_all qs), union_all-marks qs)

root_select-marks : (p : Text) → IsPlain p → IsPlain (root_select p)
unfolding root_select
root_select-marks p h = rw marks-concat (
    unfold all_marks marks codes in
    omega (
      arith,
      l0-IsPlain,
      build_select_cols-marks root_alias p root_path l0-IsPlain h
          (build_path_expr-marks root_alias l0-IsPlain) false,
    ))

module _ (c : Codec) (dialect : Text) (q : QuerySpec) where
  root_inner-marks :
      (ws : List Text)
      → marks (root_inner q ws (build_cursor_filter c q).0)
        ≡ all_marks ws + length (cursor_args (build_cursor_filter c q))
  unfolding root_inner
  root_inner-marks ws =
      let cursor = build_cursor_filter c q in
      rw marks-concat (
        unfold all_marks marks codes in
        omega (
          arith,
          l0-IsPlain,
          spaced-marks (root_joins q root_alias),
          root_joins-marks q root_alias l0-IsPlain,
          where_text-marks (root_conditions ws cursor.0),
          root_conditions-marks ws cursor (build_cursor_filter-marks c q),
          root_order-marks q,
          format-marks q.limit,
          offset_text-marks q.page,
        ))

  relational_query-BindsAll :
      (p : Text) (s : Collected)
      → HasPlainNames c q
      → IsPlain p
      → IsBalanced (length (started c dialect q).args) s
      → BindsAll dialect q (relational_query c dialect q p s)
  unfolding relational_query started
  relational_query-BindsAll p s h hp b =
      let root = build_root_clauses c dialect q root_alias in
      let cursor = build_cursor_filter c q in
      let conditions = build_root_clauses-Exceeds c dialect root_alias l0-IsPlain q h in
      (
        rw marks-concat (
            unfold all_marks marks codes in
            omega (
              arith,
              with_clause-marks (root_inner q root.clauses cursor.0) s.ctes,
              root_inner-marks root.clauses,
              root_select-marks p hp,
              union_all-marks s.subqueries,
              b.ctes,
              b.args,
              length-append root.args (cursor_args cursor),
              conditions,
            )),
        omega (
          arith,
          count_text-marks root_alias (root_joins q root_alias) root.clauses l0-IsPlain
              (root_joins-marks q root_alias l0-IsPlain),
          conditions,
        ),
      )

  collect_relations-Ends :
      AllRelations (IsPlainRelation c dialect) q.objects
      → Ends c dialect q.max_depth Unit
          (λ _. IsBalanced (length (started c dialect q).args))
          (collect_relations c dialect q (generate_fuel q))
  unfolding collect_relations generate_fuel
  collect_relations-Ends h =
      let k = length (started c dialect q).args in
      drain-Ends c dialect q.max_depth Unit (IsPlainRelation c dialect) ArePlain (IsBalanced k)
        (keeps_transitive c dialect q.max_depth k) (keeps_direct c dialect q.max_depth k)
        (count_relation_blocks q.objects) (sorted_nodes 1 [] q.objects) (started c dialect q)
        (sorted_nodes-All (IsPlainRelation c dialect) ArePlain 1 [] q.objects tt h)
        (unfold started in
          record { ctes = unfold all_marks in refl; args = unfold all_marks in omega arith })
        (omega (arith, sorted_nodes-weight 1 [] q.objects))

  -- A generated query binds its arguments.
  abbrev Binds : Generated → Type 0
  Binds (generated g) = BindsAll dialect q g
  Binds generator_error = Unit
  Binds out_of_steps = ⊥

  finish-Binds :
      (p : Text) (o : Outcome)
      → HasPlainNames c q
      → IsPlain p
      → Ends c dialect q.max_depth Unit (λ _. IsBalanced (length (started c dialect q).args)) o
      → Binds (finish c dialect q p o)
  unfolding finish
  finish-Binds p (finished s) h hp b = relational_query-BindsAll p s h hp b
  finish-Binds p failed h hp b = b
  finish-Binds p out_of_fuel h hp b = b

  generate_with_relations-Binds :
      HasPlainTree c dialect q → Binds (generate_with_relations c dialect q)
  unfolding generate_with_relations
  generate_with_relations-Binds h =
      elim (Option-cases (build_projection c dialect q.objects root_alias)) [
        | inl e ↦ rw (e, generate_with_relations) tt
        | inr (p, e) ↦
            rw (e, generate_with_relations)
              (finish-Binds p _ h.names
                (build_projection-marks c dialect q.objects root_alias h.names.projection l0-IsPlain
                  e)
                (collect_relations-Ends h.relations))
      ]

  of_root-Binds : HasPlainNames c q → Binds (of_root (generate_root_only c dialect q))
  unfolding of_root
  of_root-Binds h = elim (Option-cases (generate_root_only c dialect q)) [
    | inl e ↦ rw (e, of_root) tt
    | inr (g, e) ↦ rw (e, of_root) (generate_root_only-marks c dialect q h e)
  ]

  generate-Binds : HasPlainTree c dialect q → Binds (generate c dialect q)
  unfolding generate
  generate-Binds h = elim (Bool-cases (asks_relations q.objects)) [
    | inl e ↦ rw e (generate_with_relations-Binds h)
    | inr e ↦ rw e (of_root-Binds h.names)
  ]

-- The query that Generate returns, with relations or without, has one placeholder for each of its
-- arguments in its SQL and in its count query, but for the operators `?` of the root filters'
-- Exists and DoesNotExist expressions in PostgreSQL. The relations' names, the label keys and the
-- projections' keys, which are written into the SQL, must hold no question mark, and in PostgreSQL
-- no filter of a relation may have such an expression.
pub generate-marks :
    (c : Codec) (dialect : Text) (q : QuerySpec) (g : GeneratedQuery)
    → HasPlainTree c dialect q
    → generate c dialect q ≡ generated g
    → BindsAll dialect q g
generate-marks c dialect q g h e = subst (Binds c dialect q) e (generate-Binds c dialect q h)
