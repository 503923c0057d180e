-- ===== src/Engine/Filter/Arguments.antt =====
-- buildObjectFilterWithRT: placeholders and arguments over a whole filter.
use kube_graphql.Common.{
  Bool-cases, length, All, Text, codes, join, suc, ◌≡◌, refl, ◌∙◌, inl, inr, Option, none, some,
  List, [], ◌∷◌, ◌++◌, arith,
}
use kube_graphql.Api.{Time, ConditionFilter, TimestampFilter, ObjectFilter}
use kube_graphql.Engine.Codec.{Codec}
use kube_graphql.Engine.Filter.{
  equal_clause, time_clause, timestamp_clauses, condition_arg, condition_parts, condition_clause,
  condition_clauses, json_path_clauses, build_object_filter_with_rt,
}
use kube_graphql.Engine.Filter.Labels.{is_postgres}
use kube_graphql.Engine.Filter.Placeholders.{
  equal_clause-Exceeds, stray, expression_clauses-Exceeds, label_clauses-Exceeds,
  group_kind_clauses-Exceeds, category_clauses-Exceeds,
}
use kube_graphql.Engine.Sql.{
  marks, all_marks, IsPlain, marks-join, marks-concat, Exceeds, ⊕-Exceeds, ⊕-Exceeds_right,
  ⊕-Exceeds_left,
}

module _ (c : Codec) (dialect alias : Text) (ha : IsPlain alias) where
  condition_parts-marks :
      (status reason : Text)
      → all_marks (condition_parts status reason)
        ≡ suc (length (condition_arg status ++ condition_arg reason))
  unfolding condition_parts condition_arg all_marks marks codes
  condition_parts-marks [] [] = refl
  condition_parts-marks [] (r ∷ reason) = refl
  condition_parts-marks (s ∷ status) [] = refl
  condition_parts-marks (s ∷ status) (r ∷ reason) = refl

  condition_joined-marks :
      (status reason : Text)
      → marks (join (condition_parts status reason) (codes " AND "))
        ≡ suc (length (condition_arg status ++ condition_arg reason))
  condition_joined-marks status reason =
      marks-join (condition_parts status reason) (codes " AND ") (unfold marks codes in refl)
      ∙ condition_parts-marks status reason

  condition_clause-Exceeds :
      (cond : ConditionFilter) → Exceeds (condition_clause c dialect alias cond) 0
  unfolding condition_clause
  condition_clause-Exceeds cond = elim (Bool-cases (is_postgres dialect)) [
    | inl e ↦
        rw (e, condition_clause)
          (unfold all_marks in rw marks-concat (unfold all_marks marks codes in omega arith))
    | inr e ↦
        rw (e, condition_clause)
          (unfold all_marks in
            rw marks-concat (
              unfold all_marks marks codes in
              omega (arith, condition_joined-marks cond.status cond.reason)))
  ]

  condition_clauses-Exceeds :
      (conds : List ConditionFilter) → Exceeds (condition_clauses c dialect alias conds) 0
  unfolding condition_clauses all_marks
  condition_clauses-Exceeds [] = refl
  condition_clauses-Exceeds (cond ∷ conds) =
      ⊕-Exceeds _ _ 0 0 (condition_clause-Exceeds cond) (condition_clauses-Exceeds conds)

module _ (alias : Text) (ha : IsPlain alias) where
  time_clause-Exceeds :
      (comparison : Text) (t : Option Time)
      → IsPlain comparison
      → Exceeds (time_clause alias comparison t) 0
  unfolding time_clause all_marks
  time_clause-Exceeds comparison none h = refl
  time_clause-Exceeds comparison (some t) h =
      rw marks-concat (unfold all_marks marks codes in omega arith)

  timestamp_clauses-Exceeds : (f : Option TimestampFilter) → Exceeds (timestamp_clauses alias f) 0
  unfolding timestamp_clauses all_marks
  timestamp_clauses-Exceeds none = refl
  timestamp_clauses-Exceeds (some f) =
      ⊕-Exceeds _ _ 0 0 (time_clause-Exceeds (codes ">") f.after (unfold marks codes in refl))
        (time_clause-Exceeds (codes "<") f.before (unfold marks codes in refl))

  json_path_clauses-Exceeds :
      (dialect path : Text) → Exceeds (json_path_clauses dialect alias path) 0
  unfolding json_path_clauses all_marks
  json_path_clauses-Exceeds dialect [] = refl
  json_path_clauses-Exceeds dialect (p ∷ path) = elim (Bool-cases (is_postgres dialect)) [
    | inl e ↦ rw e (rw marks-concat (unfold all_marks marks codes in omega arith))
    | inr e ↦ rw e (rw marks-concat (unfold all_marks marks codes in omega arith))
  ]

-- The keys of a filter's labels and label expressions, which are written into the SQL, hold no
-- question mark.
pub record HasPlainKeys (f : ObjectFilter) : Type 0 where
  pub labels : All (λ l. IsPlain l.0) f.labels
  pub expressions : All (λ e. IsPlain e.key) f.label_expressions

-- The conditions of a filter have exactly one placeholder for each argument, but for the operator
-- `?` of each Exists and DoesNotExist expression in PostgreSQL. The aliases and the label keys
-- must hold no question mark.
pub build_object_filter_with_rt-Exceeds :
    (c : Codec) (dialect : Text) (f : ObjectFilter) (alias rt : Text)
    → IsPlain alias
    → IsPlain rt
    → HasPlainKeys f
    → Exceeds (build_object_filter_with_rt c dialect f alias rt) (stray dialect f.label_expressions)
unfolding build_object_filter_with_rt
build_object_filter_with_rt-Exceeds c dialect f alias rt ha hr h =
    let L = expression_clauses-Exceeds dialect alias ha f.label_expressions h.expressions in
    let n = stray dialect f.label_expressions in
    ⊕-Exceeds_right _ _ n (group_kind_clauses-Exceeds dialect alias rt ha hr f.group_kind) (
      ⊕-Exceeds_right _ _ n (field (codes ".name") f.name (unfold marks codes in refl)) (
        ⊕-Exceeds_right _ _ n (field (codes ".namespace") f.namespace (unfold marks codes in refl))
          (⊕-Exceeds_right _ _ n (label_clauses-Exceeds dialect alias ha c f.labels h.labels) (
            ⊕-Exceeds_right _ _ n (condition_clauses-Exceeds c dialect alias ha f.conditions) (
              ⊕-Exceeds_right _ _ n (timestamp_clauses-Exceeds alias ha f.creation_timestamp) (
                ⊕-Exceeds_right _ _ n (field (codes ".id") f.id (unfold marks codes in refl)) (
                  ⊕-Exceeds_right _ _ n
                    (category_clauses-Exceeds dialect alias rt ha hr f.categories)
                    (⊕-Exceeds_left _ _ n L
                      (json_path_clauses-Exceeds alias ha dialect f.json_path)))))))))
  where
    field : (col value : Text) → IsPlain col → Exceeds (equal_clause alias col value) 0
    field = equal_clause-Exceeds alias ha
