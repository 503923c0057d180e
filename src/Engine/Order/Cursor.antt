-- ===== src/Engine/Order/Cursor.antt =====
-- buildCursorFilter: the columns, arguments and placeholders of its clause.
use kube_graphql.Common.{
  false, ◌≡◌, refl, ap, some, List, [], ◌∷◌, ◌++◌, map, Text, codes, join, split, split-append,
  is_empty, lookup, lookup_cases, length, length-map, arith, Bool-cases, Option-cases, inl, inr,
}
use kube_graphql.Api.{OrderSpec, PageSpec, QuerySpec}
use kube_graphql.Engine.Sql.{Arg, text, marks, all_marks, marks-append, marks-join}
use kube_graphql.Engine.Codec.{Codec}
use kube_graphql.Engine.Validate.{sort_column, valid_sort_fields}
use kube_graphql.Engine.Order.{
  or_empty, column, repeat, prefix, cursor_operator, cursor_clause, decode_token,
  build_cursor_filter,
}
use kube_graphql.Engine.Order.Keys.{sort_keys, cursor_fields-sort_keys}

-- One placeholder for each element.
abbrev pub holes {ℓ} : {A : Type ℓ} → List A → List Text
holes [] = []
holes (x ∷ xs) = codes "?" ∷ holes xs

split-repeat :
    {A : Type 0} (xs : List A)
    → prefix (length xs) (split (repeat (codes "?,") (length xs)) b',') ≡ holes xs
unfolding prefix repeat codes
split-repeat [] = refl
split-repeat (x ∷ xs) =
    rw (split-append (b'?' ∷ []) (repeat (codes "?,") (length xs)) b',' (omega arith))
      (ap (λ r. (b'?' ∷ []) ∷ r) (split-repeat xs))

-- The comparison of a row of columns with as many placeholders.
unfoldable pub row_comparison : List Text → Text → Text
row_comparison columns op =
    codes "("
    ++ (join columns (codes ", ")
        ++ (codes ") " ++ (op ++ (codes " (" ++ (join (holes columns) (codes ", ") ++ codes ")")))))

-- The columns of the sort keys, and a cursor's values for them.
abbrev pub key_columns : List OrderSpec → List Text
key_columns os = map (λ (o : OrderSpec). column o.field) (sort_keys os)

abbrev pub key_values : List OrderSpec → List (Text × Text) → List Arg
key_values os values =
    map (λ (o : OrderSpec). text (or_empty (lookup o.field values))) (sort_keys os)

cursor_clause-sort_keys :
    (os : List OrderSpec) (values : List (Text × Text))
    → cursor_clause os values
      ≡ (row_comparison (key_columns os) (cursor_operator os), key_values os values)
unfolding cursor_clause row_comparison
cursor_clause-sort_keys os values = simp (cursor_fields-sort_keys, split-repeat)

-- The filter for the rows behind a cursor compares, in order, the columns that ORDER BY sorts by
-- with the cursor's values for the same fields, where the page has a token that decodes.
pub build_cursor_filter-sort_keys :
    (c : Codec) (q : QuerySpec) (p : PageSpec) (values : List (Text × Text))
    → q.page ≡ some p
    → is_empty p.cursor ≡ false
    → decode_token c p.cursor ≡ some values
    → build_cursor_filter c q
      ≡ (row_comparison (key_columns q.order) (cursor_operator q.order), key_values q.order values)
unfolding build_cursor_filter
build_cursor_filter-sort_keys c q p values hp he hd =
    rw (hp, he, hd) (cursor_clause-sort_keys q.order values)

pub column-marks : (f : Text) → marks (column f) ≡ 0
unfolding column sort_column codes marks
column-marks f =
    lookup_cases (λ _ v. marks (or_empty v) ≡ 0) valid_sort_fields f (omega arith) (λ _. refl)

key_columns-marks :
    (os : List OrderSpec) → all_marks (map (λ (o : OrderSpec). column o.field) os) ≡ 0
unfolding all_marks
key_columns-marks [] = refl
key_columns-marks (o ∷ os) = omega (arith, column-marks o.field, key_columns-marks os)

holes-marks {ℓ} : {A : Type ℓ} (xs : List A) → all_marks (holes xs) ≡ length xs
unfolding all_marks marks codes
holes-marks [] = refl
holes-marks (x ∷ xs) = omega (arith, holes-marks xs)

cursor_operator-marks : (os : List OrderSpec) → marks (cursor_operator os) ≡ 0
unfolding cursor_operator marks codes
cursor_operator-marks [] = refl
cursor_operator-marks (o ∷ os) = ground arith

row_comparison-marks :
    (columns : List Text) (op : Text)
    → all_marks columns ≡ 0
    → marks op ≡ 0
    → marks (row_comparison columns op) ≡ length columns
unfolding row_comparison
row_comparison-marks columns op hc ho = simp marks-append (
    unfold marks codes in
    omega (
      arith,
      marks-join columns (codes ", ") refl,
      marks-join (holes columns) (codes ", ") refl,
      holes-marks columns,
    ))

cursor_clause-marks :
    (os : List OrderSpec) (values : List (Text × Text))
    → marks (cursor_clause os values).0 ≡ length (cursor_clause os values).1
cursor_clause-marks os values = rw cursor_clause-sort_keys (
    omega (
      arith,
      row_comparison-marks (key_columns os) (cursor_operator os) (key_columns-marks (sort_keys os))
          (cursor_operator-marks os),
      length-map (λ (o : OrderSpec). column o.field) (sort_keys os),
      length-map (λ (o : OrderSpec). text (or_empty (lookup o.field values))) (sort_keys os),
    ))

-- A cursor's clause has one placeholder for each of its arguments.
pub build_cursor_filter-marks :
    (c : Codec) (q : QuerySpec)
    → marks (build_cursor_filter c q).0 ≡ length (build_cursor_filter c q).1
unfolding build_cursor_filter
build_cursor_filter-marks c q = elim (Option-cases q.page) [
  | inl e ↦ rw e (unfold marks in refl)
  | inr (p, e) ↦ elim (Bool-cases (is_empty p.cursor)) [
    | inl e' ↦ rw (e, e') (unfold marks in refl)
    | inr e' ↦ elim (Option-cases (decode_token c p.cursor)) [
      | inl d ↦ rw (e, e', d) (unfold marks in refl)
      | inr (values, d) ↦ rw (e, e', d) (cursor_clause-marks q.order values)
    ]
  ]
]
