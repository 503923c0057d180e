-- ===== src/Engine/Filter/Placeholders.antt =====
-- buildObjectFilterWithRT: placeholders and arguments of each criterion.
use kube_graphql.Common.{
  if◌then◌else◌, Bool-cases, length, All, length-map, Text, codes, join, ℕ, ◌+◌, ◌≡◌, refl, ◌∙◌,
  inl, inr, Option, none, some, List, [], ◌∷◌, arith,
}
use kube_graphql.Api.{
  GroupKindFilter, LabelOperator, in_set, not_in, exists, does_not_exist, other, LabelExpression,
}
use kube_graphql.Engine.Codec.{Codec}
use kube_graphql.Engine.Filter.{
  resource_type, kind_condition, category_condition, equal_clause, kind_clauses, group_kind_clauses,
  category_clauses,
}
use kube_graphql.Engine.Filter.Labels.{
  is_postgres, label_path, placeholders, in_clause, not_in_clause, exists_clause,
  does_not_exist_clause, operator_clauses, expression_clauses, label_clauses_each, label_clauses,
}
use kube_graphql.Engine.Sql.{
  text, marks, all_marks, IsPlain, marks-join, marks-concat, Exceeds, ⊕-Exceeds,
}

module _ (alias : Text) (ha : IsPlain alias) where
  pub equal_clause-Exceeds :
      (col value : Text) → IsPlain col → Exceeds (equal_clause alias col value) 0
  unfolding equal_clause all_marks
  equal_clause-Exceeds col [] hc = omega arith
  equal_clause-Exceeds col (v ∷ vs) hc =
      rw marks-concat (unfold all_marks marks codes in omega arith)

label_path-marks :
    (dialect alias key : Text)
    → IsPlain alias
    → IsPlain key
    → marks (label_path dialect alias key) ≡ 0
unfolding label_path
label_path-marks dialect alias key ha hk = elim (Bool-cases (is_postgres dialect)) [
  | inl e ↦ rw e (rw marks-concat (unfold all_marks marks codes in omega arith))
  | inr e ↦ rw e (rw marks-concat (unfold all_marks marks codes in omega arith))
]

placeholders-marks : (vs : List Text) → all_marks (placeholders vs) ≡ length vs
unfolding all_marks marks codes
placeholders-marks [] = refl
placeholders-marks (v ∷ vs) = omega (arith, placeholders-marks vs)

-- The placeholders joined by commas.
joined-marks : (vs : List Text) → marks (join (placeholders vs) (codes ", ")) ≡ length vs
joined-marks vs =
    marks-join (placeholders vs) (codes ", ") (unfold marks codes in refl) ∙ placeholders-marks vs

-- One in PostgreSQL, whose operator `?` reads as a placeholder.
abbrev pub one_in_postgres : Text → ℕ
one_in_postgres dialect = if is_postgres dialect then 1 else 0

abbrev pub stray_of : Text → LabelOperator → ℕ
stray_of dialect exists = one_in_postgres dialect
stray_of dialect does_not_exist = one_in_postgres dialect
stray_of dialect _ = 0

-- The operators `?` among the conditions of label expressions.
unfoldable pub stray : Text → List LabelExpression → ℕ
stray dialect [] = 0
stray dialect (e ∷ es) = stray_of dialect e.operator + stray dialect es

module _ (dialect alias : Text) (ha : IsPlain alias) where
  in_clause-marks :
      (key : Text) (vs : List Text)
      → IsPlain key
      → marks (in_clause dialect alias key vs) ≡ length vs
  unfolding in_clause
  in_clause-marks key vs hk = rw marks-concat (
      unfold all_marks marks codes in
      omega (arith, label_path-marks dialect alias key ha hk, joined-marks vs))

  not_in_clause-marks :
      (key : Text) (vs : List Text)
      → IsPlain key
      → marks (not_in_clause dialect alias key vs) ≡ length vs
  unfolding not_in_clause
  not_in_clause-marks key vs hk = rw marks-concat (
      unfold all_marks marks codes in
      omega (arith, label_path-marks dialect alias key ha hk, joined-marks vs))

  exists_clause-marks :
      (key : Text) → IsPlain key → marks (exists_clause dialect alias key) ≡ one_in_postgres dialect
  unfolding exists_clause
  exists_clause-marks key hk = elim (Bool-cases (is_postgres dialect)) [
    | inl e ↦ rw e (rw marks-concat (unfold all_marks marks codes in omega arith))
    | inr e ↦ rw e (
        rw marks-concat
          (unfold all_marks marks codes in omega (arith, label_path-marks dialect alias key ha hk)))
  ]

  does_not_exist_clause-marks :
      (key : Text)
      → IsPlain key
      → marks (does_not_exist_clause dialect alias key) ≡ one_in_postgres dialect
  unfolding does_not_exist_clause
  does_not_exist_clause-marks key hk = elim (Bool-cases (is_postgres dialect)) [
    | inl e ↦ rw e (rw marks-concat (unfold all_marks marks codes in omega arith))
    | inr e ↦ rw e (
        rw marks-concat
          (unfold all_marks marks codes in omega (arith, label_path-marks dialect alias key ha hk)))
  ]

module _ (dialect alias : Text) (ha : IsPlain alias) where
  operator_clauses-Exceeds :
      (o : LabelOperator) (key : Text) (vs : List Text)
      → IsPlain key
      → Exceeds (operator_clauses dialect alias o key vs) (stray_of dialect o)
  unfolding operator_clauses all_marks
  operator_clauses-Exceeds in_set key [] hk = refl
  operator_clauses-Exceeds in_set key (v ∷ vs) hk =
      omega (arith, in_clause-marks dialect alias ha key (v ∷ vs) hk, length-map text (v ∷ vs))
  operator_clauses-Exceeds not_in key [] hk = refl
  operator_clauses-Exceeds not_in key (v ∷ vs) hk =
      omega (arith, not_in_clause-marks dialect alias ha key (v ∷ vs) hk, length-map text (v ∷ vs))
  operator_clauses-Exceeds exists key vs hk =
      omega (arith, exists_clause-marks dialect alias ha key hk)
  operator_clauses-Exceeds does_not_exist key vs hk =
      omega (arith, does_not_exist_clause-marks dialect alias ha key hk)
  operator_clauses-Exceeds (other name) key vs hk = refl

  pub expression_clauses-Exceeds :
      (es : List LabelExpression)
      → All (λ e. IsPlain e.key) es
      → Exceeds (expression_clauses dialect alias es) (stray dialect es)
  unfolding expression_clauses all_marks stray
  expression_clauses-Exceeds [] h = refl
  expression_clauses-Exceeds (e ∷ es) h =
      ⊕-Exceeds _ _ (stray_of dialect e.operator) (stray dialect es)
        (operator_clauses-Exceeds e.operator e.key e.values h.0) (expression_clauses-Exceeds es h.1)

  label_clauses_each-Exceeds :
      (labels : List (Text × Text))
      → All (λ l. IsPlain l.0) labels
      → Exceeds (label_clauses_each dialect alias labels) 0
  unfolding label_clauses_each all_marks
  label_clauses_each-Exceeds [] h = refl
  label_clauses_each-Exceeds ((k, v) ∷ labels) h =
      ⊕-Exceeds _ _ 0 0 (rw marks-concat (unfold all_marks marks codes in omega (arith, h.0)))
        (label_clauses_each-Exceeds labels h.1)

  pub label_clauses-Exceeds :
      (c : Codec) (labels : List (Text × Text))
      → All (λ l. IsPlain l.0) labels
      → Exceeds (label_clauses dialect alias c labels) 0
  unfolding label_clauses all_marks
  label_clauses-Exceeds c [] h = refl
  label_clauses-Exceeds c (l ∷ labels) h = elim (Bool-cases (is_postgres dialect)) [
    | inl e ↦ rw e (rw marks-concat (unfold all_marks marks codes in omega arith))
    | inr e ↦ rw e (label_clauses_each-Exceeds (l ∷ labels) h)
  ]

module _ (alias rt : Text) (ha : IsPlain alias) (hr : IsPlain rt) where
  resource_type-marks : (s : Text) → marks (resource_type alias rt s) ≡ marks s
  unfolding resource_type
  resource_type-marks s = rw marks-concat (unfold all_marks marks codes in omega arith)

module _ (dialect rt : Text) (hr : IsPlain rt) where
  kind_condition-marks : marks (kind_condition dialect rt) ≡ 4
  unfolding kind_condition
  kind_condition-marks = elim (Bool-cases (is_postgres dialect)) [
    | inl e ↦ rw e (rw marks-concat (unfold all_marks marks codes in omega arith))
    | inr e ↦ rw e (rw marks-concat (unfold all_marks marks codes in omega arith))
  ]

  category_condition-marks : marks (category_condition dialect rt) ≡ 1
  unfolding category_condition
  category_condition-marks = elim (Bool-cases (is_postgres dialect)) [
    | inl e ↦ rw e (rw marks-concat (unfold all_marks marks codes in omega arith))
    | inr e ↦ rw e (rw marks-concat (unfold all_marks marks codes in omega arith))
  ]

module _ (dialect alias rt : Text) (ha : IsPlain alias) (hr : IsPlain rt) where
  kind_clauses-Exceeds : (kind : Text) → Exceeds (kind_clauses dialect alias rt kind) 0
  unfolding kind_clauses all_marks
  kind_clauses-Exceeds [] = refl
  kind_clauses-Exceeds (k ∷ kind) = omega (
    arith,
    resource_type-marks alias rt ha hr (kind_condition dialect rt),
    kind_condition-marks dialect rt hr,
  )

  pub group_kind_clauses-Exceeds :
      (gk : Option GroupKindFilter) → Exceeds (group_kind_clauses dialect alias rt gk) 0
  unfolding group_kind_clauses all_marks
  group_kind_clauses-Exceeds none = refl
  group_kind_clauses-Exceeds (some gk) =
      ⊕-Exceeds _ _ 0 0
        (equal_clause-Exceeds alias ha (codes ".api_group") gk.api_group
          (unfold marks codes in refl))
        (kind_clauses-Exceeds gk.kind)

  pub category_clauses-Exceeds :
      (cats : List Text) → Exceeds (category_clauses dialect alias rt cats) 0
  unfolding category_clauses all_marks
  category_clauses-Exceeds [] = refl
  category_clauses-Exceeds (cat ∷ cats) =
      ⊕-Exceeds _ _ 0 0
        (omega (
          arith,
          resource_type-marks alias rt ha hr (category_condition dialect rt),
          category_condition-marks dialect rt hr,
        ))
        (category_clauses-Exceeds cats)
