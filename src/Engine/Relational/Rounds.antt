-- ===== src/Engine/Relational/Rounds.antt =====
-- The rounds of the loop of generateWithRelations: they keep placeholders and arguments balanced.
use kube_graphql.Common.{
  Bool-cases, OrElse, OrElse-bind, OrElse-intro, length, length-append, All-append, ℤ, Text, codes,
  ℕ, suc, ◌+◌, ◌≡◌, ◌∙◌, inl, inr, some, List, [], ◌∷◌, ◌++◌, arith,
}
use kube_graphql.Api.{RelationMap, relation, RelationSpec}
use kube_graphql.Engine.Codec.{Codec}
use kube_graphql.Engine.Projection.{build_projection}
use kube_graphql.Engine.Projection.Plain.{build_projection-marks}
use kube_graphql.Engine.Relational.Nodes.{
  AllOf, AllBelow-objects, AllRelations-map, IsNode, visit_sub_relation_rule, KeepsTransitive,
  KeepsDirect,
}
use kube_graphql.Engine.Relational.Placeholders.{
  level_alias-marks, cte_name_of-marks, l0-IsPlain, parent_alias_of-marks, IsPlainRelation,
  relation_join-BindsJoin, relation_select-marks,
}
use kube_graphql.Engine.Relational.Queue.{Node}
use kube_graphql.Engine.Relational.Visit.{
  root_alias, root_path, Collected, add_subquery, level_alias, spec_limit, spec_objects,
  relations_of, add_transitive, next_level, transitive_request, ancestor_source, relation_join,
  sub_subquery, visit_sub_relations, visit_transitive, node_join, direct_subquery, own_ancestors,
}
use kube_graphql.Engine.Relations.{is_transitive, base_relation}
use kube_graphql.Engine.Relations.Placeholders.{BindsJoin, trim_suffix-IsPlain}
use kube_graphql.Engine.Root.Placeholders.{marks-all_marks}
use kube_graphql.Engine.Root.Texts.{build_path_expr-marks, spaced-marks}
use kube_graphql.Engine.Sql.{
  Arg, marks, all_marks, IsPlain, marks-append, all_marks-append, marks-concat,
}
use kube_graphql.Engine.Transitive.{TransitiveResult, path_segment, path_through, ancestor_joins}
use kube_graphql.Engine.Transitive.Arguments.{BindsTransitive, build_transitive_cte-Binds}
use kube_graphql.Engine.Transitive.Placeholders.{
  path_segment-marks, ArePlain, path_through-marks, ancestor_joins-marks, limited-marks,
  HasPlainTexts,
}

-- The CTEs hold no placeholder, and the subqueries have one for each argument behind the first `k`.
pub record IsBalanced (k : ℕ) (s : Collected) : Type 0 where
  pub ctes : all_marks s.ctes ≡ 0
  pub args : all_marks s.subqueries + k ≡ length s.args

all_marks_snoc : (ps : List Text) (p : Text) → all_marks (ps ++ p ∷ []) ≡ all_marks ps + marks p
all_marks_snoc ps p = omega (arith, all_marks-append ps (p ∷ []), marks-all_marks p)

pub add_subquery-IsBalanced :
    (k : ℕ) (sql : Text) (args : List Arg) (s : Collected)
    → marks sql ≡ length args
    → IsBalanced k s
    → IsBalanced k (add_subquery sql args s)
unfolding add_subquery
add_subquery-IsBalanced k sql args s e h = record {
  ctes = h.ctes;
  args = omega (arith, h.args, all_marks_snoc s.subqueries sql, length-append s.args args);
}

add_transitive-IsBalanced :
    (k : ℕ) (t : TransitiveResult) (s : Collected)
    → BindsTransitive t
    → IsBalanced k s
    → IsBalanced k (add_transitive t s)
unfolding add_transitive
add_transitive-IsBalanced k t s b h = record {
  ctes = omega (arith, h.ctes, all_marks_snoc s.ctes t.cte_sql, b.0);
  args = omega (
    arith,
    h.args,
    all_marks_snoc s.subqueries t.select_sql,
    length-append s.args t.select_args,
    b.1,
  );
}

next_level-IsBalanced : (k : ℕ) (s : Collected) → IsBalanced k s → IsBalanced k (next_level s)
unfolding next_level
next_level-IsBalanced k s h = record { ctes = h.ctes; args = h.args }

module _ (c : Codec) (dialect : Text) where
  sub_subquery-marks :
      (cte : Text) (level n : ℕ) (name : Text) (r : RelationSpec) (p : Text)
      → IsPlain cte
      → IsPlain p
      → IsPlainRelation c dialect name r
      → marks (sub_subquery c dialect cte level n name r p)
        ≡ length (relation_join c dialect name cte (level_alias n) n r).extra.args
  unfolding sub_subquery
  sub_subquery-marks cte level n name r p hc hp h =
      let alias = level_alias-marks n in
      relation_select-marks (level_alias n) level name p _ cte _ alias h.plain hp
        (simp marks-append
          (unfold marks codes in omega (arith, hc, path_segment-marks (level_alias n) alias)))
        hc (relation_join-BindsJoin c dialect name cte (level_alias n) n r hc alias h)

  visit_sub_relations-IsBalanced :
      (k : ℕ) (cte : Text) (level n : ℕ) (m : RelationMap) (s : Collected)
      → IsPlain cte
      → AllOf (IsPlainRelation c dialect) m
      → IsBalanced k s
      → OrElse Unit (IsBalanced k) (visit_sub_relations c dialect cte level n m s)
  unfolding visit_sub_relations AllOf
  visit_sub_relations-IsBalanced k cte level n RelationMap.end s hc h b = b
  visit_sub_relations-IsBalanced k cte level n (relation name r m) s hc h b =
      elim (Bool-cases (is_transitive name)) [
        | inl t ↦
            rw (t, visit_sub_relations)
              (visit_sub_relations-IsBalanced k cte level n m s hc h.1.1 b)
        | inr t ↦
            rw (t, visit_sub_relations)
              (OrElse-bind Unit (IsBalanced k) (IsBalanced k) _ _
                (visit_sub_relation_rule c dialect (IsBalanced k) cte level n name r s (λ p e.
                  add_subquery-IsBalanced k _ _ s
                    (sub_subquery-marks cte level n name r p hc
                      (build_projection-marks c dialect (spec_objects r) (level_alias n)
                        h.0.projection (level_alias-marks n) e)
                      h.0)
                    b))
                (λ s' b'. visit_sub_relations-IsBalanced k cte level n m s' hc h.1.1 b'))
      ]

  module _ (max_depth : ℤ) (k : ℕ) where
    request-HasPlainTexts :
        (n : Node) (i : ℕ)
        → IsNode (IsPlainRelation c dialect) ArePlain n
        → HasPlainTexts (transitive_request max_depth n i)
    unfolding transitive_request base_relation
    request-HasPlainTexts n i h = record {
      cte_name = cte_name_of-marks _ i (trim_suffix-IsPlain b'+' n.relation_name h.own.plain);
      root_alias = l0-IsPlain;
      root_path = build_path_expr-marks root_alias l0-IsPlain;
      parent_alias = parent_alias_of-marks n.ancestors h.ancestors;
      ancestors = h.ancestors;
      relation_name = h.own.plain;
    }

    pub keeps_transitive :
        KeepsTransitive c dialect max_depth Unit (IsPlainRelation c dialect) ArePlain (IsBalanced k)
    unfolding visit_transitive
    keeps_transitive n s t h b =
        let request = transitive_request max_depth n s.counter in
        let plain = request-HasPlainTexts n s.counter h in
        OrElse-bind Unit BindsTransitive (IsBalanced k) _ _
          (build_transitive_cte-Binds c (base_relation n.relation_name) dialect request plain
            (unfold transitive_request in h.own.projection))
          (λ built bound.
            OrElse-bind Unit (IsBalanced k) (IsBalanced k) (λ s'. some (next_level s')) _
              (visit_sub_relations-IsBalanced k request.cte_name (suc n.level) (suc s.counter)
                (relations_of (spec_objects n.relation_spec)) (add_transitive built s)
                plain.cte_name
                (AllRelations-map (IsPlainRelation c dialect) _
                  (AllBelow-objects (IsPlainRelation c dialect) _ h.below))
                (add_transitive-IsBalanced k built s bound b))
              (λ s' b'. next_level-IsBalanced k s' b'))

    node_join-BindsJoin :
        (n : Node) (i : ℕ)
        → IsNode (IsPlainRelation c dialect) ArePlain n
        → BindsJoin (node_join c dialect n i)
    unfolding node_join
    node_join-BindsJoin n i h =
        relation_join-BindsJoin c dialect n.relation_name _ (level_alias i) i n.relation_spec
          (parent_alias_of-marks n.ancestors h.ancestors) (level_alias-marks i) h.own

    direct_subquery-marks :
        (n : Node) (i : ℕ) (p : Text)
        → IsNode (IsPlainRelation c dialect) ArePlain n
        → IsPlain p
        → marks (direct_subquery c dialect n i p) ≡ length (node_join c dialect n i).extra.args
    unfolding direct_subquery ancestor_source
    direct_subquery-marks n i p h hp =
        let alias = level_alias-marks i in
        limited-marks (spec_limit n.relation_spec) _
        ∙ relation_select-marks (level_alias i) n.level n.relation_name p _ _
            (node_join c dialect n i) alias h.own.plain hp
            (omega (
              arith,
              marks-append (path_through root_path n.ancestors) (path_segment (level_alias i)),
              path_segment-marks (level_alias i) alias,
              path_through-marks root_path n.ancestors (build_path_expr-marks root_alias l0-IsPlain)
                  h.ancestors,
            ))
            (rw marks-concat (
              unfold all_marks marks codes in
              omega (
                arith,
                spaced-marks (ancestor_joins n.ancestors),
                ancestor_joins-marks n.ancestors h.ancestors,
              )))
            (node_join-BindsJoin n i h)

    pub keeps_direct :
        KeepsDirect c dialect max_depth Unit (IsPlainRelation c dialect) ArePlain (IsBalanced k)
    unfolding own_ancestors
    keeps_direct n s h b =
        let bound = node_join-BindsJoin n s.counter h in
        (
          All-append _ n.ancestors _ h.ancestors ((level_alias-marks s.counter, bound.plain), tt),
          OrElse-intro _
              (build_projection c dialect (spec_objects n.relation_spec) (level_alias s.counter))
              (λ p e. next_level-IsBalanced k _ (
                add_subquery-IsBalanced k _ _ s
                  (direct_subquery-marks n s.counter p h (
                    build_projection-marks c dialect (spec_objects n.relation_spec)
                      (level_alias s.counter) h.own.projection (level_alias-marks s.counter) e))
                  b)),
        )
