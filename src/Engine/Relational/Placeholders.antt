-- ===== src/Engine/Relational/Placeholders.antt =====
-- The subqueries of generateWithRelations: their placeholders and arguments.
use kube_graphql.Common.{
  Bool-cases, length, All, Text, codes, has_prefix, replace_from, replace_all, ℕ, zero, suc, ◌-◌,
  ◌≡◌, refl, ◌∙◌, inl, inr, false, List, [], ◌∷◌, arith,
}
use kube_graphql.Api.{ObjectFilter, RelationSpec}
use kube_graphql.Engine.Codec.{Codec}
use kube_graphql.Engine.Filter.Arguments.{HasPlainKeys, build_object_filter_with_rt-Exceeds}
use kube_graphql.Engine.Filter.Placeholders.{stray}
use kube_graphql.Engine.Projection.Plain.{HasPlainProjection}
use kube_graphql.Engine.Relational.Visit.{
  root_alias, level_alias, level_rt, cte_name_of, parent_alias_of, spec_filters, spec_objects,
  relation_select, filter_conditions, relation_join,
}
use kube_graphql.Engine.Relations.{base_relation, RelationJoin}
use kube_graphql.Engine.Relations.Placeholders.{BindsJoin, build_relation_join-BindsJoin}
use kube_graphql.Engine.Root.Placeholders.{stray_filters}
use kube_graphql.Engine.Root.Texts.{build_select_cols-marks, where_text-marks}
use kube_graphql.Engine.Sql.{
  marks, all_marks, IsPlain, marks-append, marks-concat, Exceeds, ⊕-Exceeds, ⊕-Exceeds_right,
}
use kube_graphql.Engine.Transitive.{Ancestor}
use kube_graphql.Engine.Transitive.Placeholders.{decimal-marks, ArePlain, level_columns-marks}

pub replace_from-IsPlain :
    (old new : Text) (skip : ℕ) (s : Text)
    → IsPlain new
    → IsPlain s
    → IsPlain (replace_from old new skip s)
unfolding replace_from marks
replace_from-IsPlain old new skip [] hn hs = refl
replace_from-IsPlain old new (suc skip) (b ∷ s) hn hs =
    replace_from-IsPlain old new skip s hn (omega arith)
replace_from-IsPlain old new zero (b ∷ s) hn hs = elim (Bool-cases (has_prefix old (b ∷ s))) [
  | inl e ↦
      rw (e, replace_from)
        (omega (
          arith,
          marks-append new (replace_from old new (length old - 1) s),
          replace_from-IsPlain old new (length old - 1) s hn (omega arith),
        ))
  | inr e ↦
      rw (e, replace_from)
        (unfold marks in omega (arith, replace_from-IsPlain old new zero s hn (omega arith)))
]

pub level_alias-marks : (n : ℕ) → IsPlain (level_alias n)
unfolding level_alias
level_alias-marks n = simp marks-append (unfold marks codes in omega (arith, decimal-marks n))

pub level_rt-marks : (n : ℕ) → IsPlain (level_rt n)
unfolding level_rt
level_rt-marks n = simp marks-append (unfold marks codes in omega (arith, decimal-marks n))

pub cte_name_of-marks : (base : Text) (n : ℕ) → IsPlain base → IsPlain (cte_name_of base n)
unfolding cte_name_of replace_all
cte_name_of-marks base n h = rw marks-concat (
    unfold all_marks marks codes in
    omega (
      arith,
      decimal-marks n,
      replace_from-IsPlain (codes "-") (codes "_") 0 base (unfold marks codes in refl) h,
    ))

pub l0-IsPlain : IsPlain root_alias
unfolding marks codes
l0-IsPlain = refl

pub parent_alias_of-marks :
    (as_of : List Ancestor) → ArePlain as_of → IsPlain (parent_alias_of as_of)
unfolding parent_alias_of
parent_alias_of-marks [] h = l0-IsPlain
parent_alias_of-marks (a ∷ []) h = h.0.0
parent_alias_of-marks (a ∷ b ∷ rest) h = parent_alias_of-marks (b ∷ rest) h.1

-- A relation that writes no placeholder of its own into the SQL: its name, the keys of its filters
-- and of its projection hold none, and no filter has the operator `?` of PostgreSQL.
pub record IsPlainRelation (c : Codec) (dialect name : Text) (r : RelationSpec) : Type 0 where
  pub plain : IsPlain name
  pub keys : All HasPlainKeys (spec_filters r)
  pub operators : stray_filters dialect (spec_filters r) ≡ 0
  pub projection : HasPlainProjection c (spec_objects r)

module _ (c : Codec) (dialect : Text) where
  filter_conditions-Exceeds :
      (fs : List ObjectFilter) (alias rt : Text)
      → IsPlain alias
      → IsPlain rt
      → All HasPlainKeys fs
      → Exceeds (filter_conditions c dialect fs alias rt) (stray_filters dialect fs)
  unfolding filter_conditions stray_filters
  filter_conditions-Exceeds [] alias rt ha hr h = unfold all_marks in refl
  filter_conditions-Exceeds (f ∷ fs) alias rt ha hr h =
      ⊕-Exceeds _ _ (stray dialect f.label_expressions) (stray_filters dialect fs)
        (build_object_filter_with_rt-Exceeds c dialect f alias rt ha hr h.0)
        (filter_conditions-Exceeds fs alias rt ha hr h.1)

  pub relation_join-BindsJoin :
      (name parent_alias child_alias : Text) (n : ℕ) (r : RelationSpec)
      → IsPlain parent_alias
      → IsPlain child_alias
      → IsPlainRelation c dialect name r
      → BindsJoin (relation_join c dialect name parent_alias child_alias n r)
  unfolding relation_join
  relation_join-BindsJoin name parent_alias child_alias n r hp hc h =
      let joined = build_relation_join-BindsJoin _ hc hp (base_relation name) in
      record {
        plain = joined.plain;
        extra = ⊕-Exceeds_right _ _ 0 joined.extra (
            filter_conditions-Exceeds (spec_filters r) child_alias (level_rt n) hc
              (level_rt-marks n) h.keys
            ∙ omega (arith, h.operators));
      }

pub relation_select-marks :
    (alias : Text) (level : ℕ) (name projection path source : Text) (j : RelationJoin)
    → IsPlain alias
    → IsPlain name
    → IsPlain projection
    → IsPlain path
    → IsPlain source
    → BindsJoin j
    → marks (relation_select alias level name projection path source j) ≡ length j.extra.args
unfolding relation_select
relation_select-marks alias level name projection path source j ha hn hp hq hs hj =
    rw marks-concat (
      unfold all_marks marks codes in
      omega (
        arith,
        build_select_cols-marks alias projection path ha hp hq false,
        level_columns-marks level name hn,
        hs,
        hj.plain,
        where_text-marks j.extra.clauses,
        hj.extra,
      ))
