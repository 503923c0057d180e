-- ===== src/Engine/Root/Texts.antt =====
-- The texts of generateRootOnly: their placeholders.
use kube_graphql.Common.{
  Bool-cases, length, ℤ, pos, negsuc, ltb_ℤ, format, Text, codes, text_eq, is_empty, digits,
  decimal, ℕ, zero, suc, ◌+◌, ◌/◌, ◌%◌, ◌≡◌, refl, ◌∙◌, inl, inr, Bool, true, false, ◌&&◌, Option,
  none, some, List, [], ◌∷◌, ◌++◌, map, arith,
}
use kube_graphql.Api.{ClusterFilter, PageSpec, OrderSpec, sort_desc, QuerySpec}
use kube_graphql.Engine.Order.{order_part, build_order_by}
use kube_graphql.Engine.Order.Cursor.{column-marks}
use kube_graphql.Engine.Order.Keys.{sort_keys, build_order_by-sort_keys}
use kube_graphql.Engine.Root.{
  build_path_expr, row_columns, columns_of, build_select_cols, spaced, where_text, cursor_text,
  cursor_args, offset_text, count_text,
}
use kube_graphql.Engine.Root.Conditions.{label_joins, cluster_joins, root_joins}
use kube_graphql.Engine.Root.Placeholders.{marks-all_marks}
use kube_graphql.Engine.Sql.{Arg, marks, all_marks, IsPlain, marks-append, marks-join, marks-concat}

pub digits-marks : (fuel n : ℕ) (rest : Text) → IsPlain rest → IsPlain (digits fuel n rest)
unfolding digits marks
digits-marks zero n rest h = h
digits-marks (suc fuel) n rest h =
    ground (arith, digits-marks fuel (n / 10) ((b'0' + n % 10) ∷ rest))

pub format-marks : (n : ℤ) → IsPlain (format n)
unfolding format decimal marks
format-marks (pos n) = digits-marks (suc n) n [] refl
format-marks (negsuc n) = omega (arith, digits-marks (suc (suc n)) (suc n) [] refl)

column_step :
    (alias c rest : Text)
    → IsPlain alias
    → IsPlain c
    → IsPlain rest
    → IsPlain (alias ++ (c ++ (codes ", " ++ rest)))
column_step alias c rest ha hc hr = simp marks-append (unfold marks codes in omega arith)

pub columns_of-marks :
    (alias : Text) (cs : List Text)
    → IsPlain alias
    → all_marks cs ≡ 0
    → IsPlain (columns_of alias cs)
unfolding columns_of all_marks
columns_of-marks alias [] ha hc = unfold marks in refl
columns_of-marks alias (c ∷ cs) ha hc =
    let rest = columns_of-marks alias cs ha (omega arith) in
    column_step alias c (columns_of alias cs) ha (omega arith) rest

pub build_path_expr-marks : (alias : Text) → IsPlain alias → IsPlain (build_path_expr alias)
unfolding build_path_expr
build_path_expr-marks alias ha = rw marks-concat (unfold all_marks marks codes in omega arith)

meta-marks : IsPlain (codes ", 0 AS level, '' AS relation_name")
unfolding marks codes
meta-marks = refl

pub row_columns-marks : all_marks row_columns ≡ 0
unfolding row_columns all_marks marks codes
row_columns-marks = refl

pub build_select_cols-marks :
    (alias projection path : Text)
    → IsPlain alias
    → IsPlain projection
    → IsPlain path
    → (include_meta : Bool) → IsPlain (build_select_cols alias projection path include_meta)
unfolding build_select_cols
build_select_cols-marks alias projection path ha hp hq true = rw marks-concat (
    unfold all_marks marks codes in
    omega (arith, columns_of-marks alias row_columns ha row_columns-marks, meta-marks))
build_select_cols-marks alias projection path ha hp hq false = rw marks-concat (
    unfold all_marks marks codes in
    omega (arith, columns_of-marks alias row_columns ha row_columns-marks))

space-marks : (j rest : Text) → marks (codes " " ++ (j ++ rest)) ≡ marks j + marks rest
space-marks j rest = simp marks-append (unfold marks codes in omega arith)

pub spaced-marks : (js : List Text) → marks (spaced js) ≡ all_marks js
unfolding spaced all_marks
spaced-marks [] = unfold marks in refl
spaced-marks (j ∷ js) = omega (arith, space-marks j (spaced js), spaced-marks js)

pub where_text-marks : (ws : List Text) → marks (where_text ws) ≡ all_marks ws
unfolding where_text
where_text-marks [] = unfold marks all_marks in refl
where_text-marks (w ∷ ws) =
    simp marks-append
      (unfold marks codes in omega (arith, marks-join (w ∷ ws) (codes " AND ") refl))

pub cursor_text-marks :
    (ws : List Text) (cursor : Text × List Arg)
    → marks cursor.0 ≡ length cursor.1
    → marks (cursor_text ws cursor.0) ≡ length (cursor_args cursor)
unfolding cursor_text cursor_args
cursor_text-marks ws ([], args) h = unfold marks in refl
cursor_text-marks [] (b ∷ s, args) h = simp marks-append (unfold marks codes in omega (arith, h))
cursor_text-marks (w ∷ ws) (b ∷ s, args) h =
    simp marks-append (unfold marks codes in omega (arith, h))

pub offset_text-marks : (p : Option PageSpec) → IsPlain (offset_text p)
unfolding offset_text
offset_text-marks none = unfold marks in refl
offset_text-marks (some p) = elim (Bool-cases (ltb_ℤ (pos 0) p.first && is_empty p.cursor)) [
  | inl e ↦ rw e (simp marks-append (unfold marks codes in omega (arith, format-marks p.first)))
  | inr e ↦ rw e (unfold marks in refl)
]

order_part-marks : (o : OrderSpec) → IsPlain (order_part o)
unfolding order_part
order_part-marks o = elim (Bool-cases (text_eq o.direction sort_desc)) [
  | inl e ↦ rw e (simp marks-append (unfold marks codes in omega (arith, column-marks o.field)))
  | inr e ↦ rw e (simp marks-append (unfold marks codes in omega (arith, column-marks o.field)))
]

order_parts-marks : (os : List OrderSpec) → all_marks (map order_part os) ≡ 0
unfolding all_marks
order_parts-marks [] = refl
order_parts-marks (o ∷ os) = omega (arith, order_part-marks o, order_parts-marks os)

pub build_order_by-marks : (q : QuerySpec) → IsPlain (build_order_by q)
build_order_by-marks q = rw build_order_by-sort_keys (
    marks-join (map order_part (sort_keys q.order)) (codes ", ") (unfold marks codes in refl)
    ∙ order_parts-marks (sort_keys q.order))

label_joins-marks :
    (labels : List (Text × Text)) (alias : Text)
    → IsPlain alias
    → all_marks (label_joins labels alias) ≡ 0
unfolding label_joins
label_joins-marks [] alias ha = unfold all_marks in refl
label_joins-marks (l ∷ labels) alias ha =
    rw (marks-all_marks, marks-concat) (unfold all_marks marks codes in omega arith)

cluster_joins-marks :
    (f : Option ClusterFilter) (alias : Text)
    → IsPlain alias
    → all_marks (cluster_joins f alias) ≡ 0
unfolding cluster_joins
cluster_joins-marks none alias ha = unfold all_marks in refl
cluster_joins-marks (some f) alias ha = label_joins-marks f.labels alias ha

pub root_joins-marks :
    (q : QuerySpec) (alias : Text) → IsPlain alias → all_marks (root_joins q alias) ≡ 0
unfolding root_joins
root_joins-marks q = cluster_joins-marks q.cluster

pub count_text-marks :
    (alias : Text) (joins ws : List Text)
    → IsPlain alias
    → all_marks joins ≡ 0
    → marks (count_text alias joins ws) ≡ all_marks ws
unfolding count_text
count_text-marks alias joins ws ha hj =
    rw marks-concat
      (unfold all_marks marks codes in omega (arith, spaced-marks joins, where_text-marks ws))
