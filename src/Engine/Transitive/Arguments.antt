-- ===== src/Engine/Transitive/Arguments.antt =====
-- buildTransitiveCTE: the placeholders of its CTE, and those of its query with their arguments.
use kube_graphql.Common.{
  Bool-cases, OrElse, OrElse-bind, OrElse-intro, length, Text, codes, ◌≡◌, refl, ◌∙◌, inl, inr,
  Option, none, some, List, [], ◌∷◌, arith,
}
use kube_graphql.Api.{GroupKindFilter, ObjectFilter, ObjectsSpec}
use kube_graphql.Engine.Codec.{Codec}
use kube_graphql.Engine.Filter.Labels.{is_postgres}
use kube_graphql.Engine.Filter.Placeholders.{equal_clause-Exceeds}
use kube_graphql.Engine.Projection.{build_projection}
use kube_graphql.Engine.Projection.Plain.{HasPlainProjection, build_projection-marks}
use kube_graphql.Engine.Root.{row_columns}
use kube_graphql.Engine.Root.Texts.{
  format-marks, columns_of-marks, row_columns-marks, spaced-marks, where_text-marks,
}
use kube_graphql.Engine.Sql.{
  marks, all_marks, IsPlain, marks-append, marks-concat, Exceeds, ⊕-Exceeds, sprintf-IsPlain,
}
use kube_graphql.Engine.Transitive.{
  TransitiveResult, TransitiveRequest, join_cond, ancestor_joins, base_visited, recursive_visited,
  cycle_check, cte_columns, base_cols, recursive_cols, cte_text, kind_condition,
  transitive_clauses_of, transitive_clauses, select_from_cte, transitive_result,
  build_transitive_cte,
}
use kube_graphql.Engine.Transitive.Placeholders.{
  condition_with-IsPlain, IsPlainCond, join_cond-IsPlainCond, path_segment-marks,
  path_through-marks, ancestor_joins-marks, level_columns-marks, limited-marks, HasPlainTexts,
}

base_visited-marks : (dialect child : Text) → IsPlain child → IsPlain (base_visited dialect child)
unfolding base_visited
base_visited-marks dialect child h =
    condition_with-IsPlain dialect _ _ _ (unfold marks codes in refl) (unfold marks codes in refl)
      (h, tt)

recursive_visited-marks :
    (dialect cte : Text) → IsPlain cte → IsPlain (recursive_visited dialect cte)
unfolding recursive_visited
recursive_visited-marks dialect cte h =
    condition_with-IsPlain dialect _ _ _ (unfold marks codes in refl) (unfold marks codes in refl)
      (h, tt)

cycle_check-marks : (dialect cte : Text) → IsPlain cte → IsPlain (cycle_check dialect cte)
unfolding cycle_check
cycle_check-marks dialect cte h = elim (Bool-cases (is_postgres dialect)) [
  | inl e ↦ rw e (sprintf-IsPlain _ _ (unfold marks codes in refl) (h, tt))
  | inr e ↦ rw e (simp marks-append (unfold marks codes in omega (arith, h)))
]

cte_columns-marks : all_marks cte_columns ≡ 0
unfolding row_columns all_marks marks codes
cte_columns-marks = refl

curr-IsPlain : IsPlain (codes "curr")
unfolding marks codes
curr-IsPlain = refl

next-IsPlain : IsPlain (codes "next")
unfolding marks codes
next-IsPlain = refl

module _ (dialect : Text) (r : TransitiveRequest) (h : HasPlainTexts r) where
  base_cols-marks :
      (projection : Text) → IsPlain projection → IsPlain (base_cols dialect r projection)
  unfolding base_cols
  base_cols-marks projection hp = rw marks-concat (
      unfold all_marks marks codes in
      omega (
        arith,
        columns_of-marks (codes "curr") cte_columns curr-IsPlain cte_columns-marks,
        path_through-marks r.root_path r.ancestors h.root_path h.ancestors,
        path_segment-marks (codes "curr") curr-IsPlain,
        base_visited-marks dialect (codes "curr") curr-IsPlain,
        level_columns-marks r.level_num r.relation_name h.relation_name,
      ))

  recursive_cols-marks :
      (projection : Text) → IsPlain projection → IsPlain (recursive_cols dialect r projection)
  unfolding recursive_cols
  recursive_cols-marks projection hp = rw marks-concat (
      unfold all_marks marks codes in
      omega (
        arith,
        h.cte_name,
        columns_of-marks (codes "next") cte_columns next-IsPlain cte_columns-marks,
        path_segment-marks (codes "next") next-IsPlain,
        recursive_visited-marks dialect r.cte_name h.cte_name,
        level_columns-marks r.level_num r.relation_name h.relation_name,
      ))

  cte_text-marks :
      (cond : Text → Text → Text → Text) (p q : Text)
      → IsPlainCond cond
      → IsPlain p
      → IsPlain q
      → IsPlain (cte_text dialect r cond p q)
  unfolding cte_text
  cte_text-marks cond p q hc hp hq = rw marks-concat (
      unfold all_marks marks codes in
      omega (
        arith,
        h.cte_name,
        h.root_alias,
        h.parent_alias,
        base_cols-marks p hp,
        recursive_cols-marks q hq,
        spaced-marks (ancestor_joins r.ancestors),
        ancestor_joins-marks r.ancestors h.ancestors,
        hc (codes "curr") r.parent_alias dialect curr-IsPlain h.parent_alias,
        hc (codes "next") r.cte_name dialect next-IsPlain h.cte_name,
        cycle_check-marks dialect r.cte_name h.cte_name,
        format-marks r.max_depth,
      ))

kind_condition-Exceeds :
    (alias : Text) (gk : Option GroupKindFilter)
    → IsPlain alias
    → Exceeds (kind_condition alias gk) 0
unfolding kind_condition
kind_condition-Exceeds alias none h = unfold all_marks in refl
kind_condition-Exceeds alias (some gk) h =
    equal_clause-Exceeds alias h _ gk.kind (unfold marks codes in refl)

transitive_clauses-Exceeds :
    (alias : Text) (fs : List ObjectFilter)
    → IsPlain alias
    → Exceeds (transitive_clauses alias fs) 0
unfolding transitive_clauses transitive_clauses_of
transitive_clauses-Exceeds alias [] h = unfold all_marks in refl
transitive_clauses-Exceeds alias (f ∷ fs) h =
    let equal = equal_clause-Exceeds alias h in
    ⊕-Exceeds _ _ 0 0
      (⊕-Exceeds _ _ 0 0 (kind_condition-Exceeds alias f.group_kind h) (
        ⊕-Exceeds _ _ 0 0 (equal (codes ".name") f.name (unfold marks codes in refl))
          (equal (codes ".namespace") f.namespace (unfold marks codes in refl))))
      (transitive_clauses-Exceeds alias fs h)

select_from_cte-marks :
    (cte : Text) (ws : List Text) → IsPlain cte → marks (select_from_cte cte ws) ≡ all_marks ws
unfolding select_from_cte
select_from_cte-marks cte ws h = rw marks-concat (
    unfold all_marks marks codes in
    omega (arith, columns_of-marks cte row_columns h row_columns-marks, where_text-marks ws))

-- The CTE of a transitive relation holds no placeholder, and the query that reads it has one for
-- each of its arguments.
abbrev pub BindsTransitive : TransitiveResult → Type 0
BindsTransitive t = IsPlain t.cte_sql × (marks t.select_sql ≡ length t.select_args)

transitive_result-Binds :
    (dialect : Text) (r : TransitiveRequest) (cond : Text → Text → Text → Text) (p q : Text)
    → HasPlainTexts r
    → IsPlainCond cond
    → IsPlain p
    → IsPlain q
    → BindsTransitive (transitive_result dialect r cond p q)
unfolding transitive_result
transitive_result-Binds dialect r cond p q h hc hp hq = (
  cte_text-marks dialect r h cond p q hc hp hq,
  limited-marks r.limit _
      ∙ select_from_cte-marks r.cte_name _ h.cte_name
      ∙ transitive_clauses-Exceeds (codes "curr") r.filters curr-IsPlain
      ∙ omega arith,
)

pub projection-IsPlain :
    (c : Codec) (dialect : Text) (o : ObjectsSpec)
    → HasPlainProjection c o
    → (alias : Text) → IsPlain alias
    → OrElse Unit IsPlain (build_projection c dialect o alias)
projection-IsPlain c dialect o h alias ha =
    OrElse-intro IsPlain (build_projection c dialect o alias)
      (λ p e. build_projection-marks c dialect o alias h ha e)

pub build_transitive_cte-Binds :
    (c : Codec) (base dialect : Text) (r : TransitiveRequest)
    → HasPlainTexts r
    → HasPlainProjection c r.objects
    → OrElse Unit BindsTransitive (build_transitive_cte c base dialect r)
unfolding build_transitive_cte
build_transitive_cte-Binds c base dialect r h hp =
    let plain = projection-IsPlain c dialect r.objects hp in
    OrElse-bind Unit IsPlainCond BindsTransitive _ (join_cond base) (join_cond-IsPlainCond base)
      (λ cond hc.
        OrElse-bind Unit IsPlain BindsTransitive _ _ (plain (codes "curr") curr-IsPlain) (λ p ha.
          OrElse-bind Unit IsPlain BindsTransitive _ _ (plain (codes "next") next-IsPlain)
            (λ q hb. transitive_result-Binds dialect r cond p q h hc ha hb)))
