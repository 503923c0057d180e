-- ===== src/Engine/Order/Keys.antt =====
-- The sort keys of a query, for buildOrderBy and buildCursorFilter.
use kube_graphql.Common.{
  ◌≡◌, refl, sym, ne_text, List, [], ◌∷◌, ◌++◌, map, Text, codes, join, Lacks, text_eq,
  lookup_cases, if◌then◌else◌, arith, split-append, append-nil, append_assoc, map-append,
  Bool-cases, inl, inr,
}
use kube_graphql.Api.{OrderSpec, QuerySpec}
use kube_graphql.Engine.Validate.{sort_column, valid_sort_fields}
use kube_graphql.Engine.Order.{
  or_empty, column, order_part, first_word, has_column, has_field, order_by, build_order_by,
  ascending, cursor_fields,
}

-- No column holds a space.
column-Lacks : (f : Text) → Lacks b' ' (column f)
unfolding column sort_column codes
column-Lacks f =
    lookup_cases (λ _ c. Lacks b' ' (or_empty c)) valid_sort_fields f (omega arith) (λ _. tt)

-- Only the field namespace has the column obj.namespace, and only name has obj.name.
column-eq :
    (f : Text)
    → (text_eq (column f) (codes "obj.namespace") ≡ text_eq f (codes "namespace"))
      × (text_eq (column f) (codes "obj.name") ≡ text_eq f (codes "name"))
unfolding column sort_column codes text_eq
column-eq f =
    lookup_cases
      (λ g c.
        (text_eq (or_empty c) (codes "obj.namespace") ≡ text_eq g (codes "namespace"))
        × (text_eq (or_empty c) (codes "obj.name") ≡ text_eq g (codes "name")))
      valid_sort_fields f
      (
        (refl, refl),
        ((refl, refl), ((refl, refl), ((refl, refl), ((refl, refl), ((refl, refl), tt))))),
      )
      (λ h. (sym (ne_text f _ (λ e. h.1.0 (sym e))), sym (ne_text f _ (λ e. h.0 (sym e)))))

first_word-append : (s t : Text) → Lacks b' ' s → first_word (s ++ b' ' ∷ t) ≡ s
unfolding first_word
first_word-append s t h = rw (split-append s t b' ' h, first_word) refl

first_word-order_part : (o : OrderSpec) → first_word (order_part o) ≡ column o.field
unfolding order_part codes
first_word-order_part o = first_word-append (column o.field) _ (column-Lacks o.field)

has_column-map :
    (os : List OrderSpec)
    → (has_column (codes "obj.namespace") (map order_part os) ≡ has_field (codes "namespace") os)
      × (has_column (codes "obj.name") (map order_part os) ≡ has_field (codes "name") os)
unfolding has_column has_field
has_column-map [] = (refl, refl)
has_column-map (o ∷ os) =
    ground (arith, first_word-order_part o, column-eq o.field, has_column-map os)

-- The keys that a query is sorted by: what it asks for, and behind that namespace and name,
-- ascending, where it lacks them. Without a request they are name and namespace.
unfoldable pub sort_keys : List OrderSpec → List OrderSpec
sort_keys [] = ascending (codes "name") ∷ ascending (codes "namespace") ∷ []
sort_keys (o ∷ os) =
    (o ∷ os)
    ++ ((if has_field (codes "namespace") (o ∷ os) then [] else ascending (codes "namespace") ∷ [])
        ++ (if has_field (codes "name") (o ∷ os) then [] else ascending (codes "name") ∷ []))

order_part-ascending :
    (order_part (ascending (codes "namespace")) ≡ codes "obj.namespace ASC")
    × (order_part (ascending (codes "name")) ≡ codes "obj.name ASC")
unfolding order_part column sort_column codes text_eq
order_part-ascending = (refl, refl)

order_by-sort_keys :
    (os : List OrderSpec) → order_by os ≡ join (map order_part (sort_keys os)) (codes ", ")
unfolding order_by sort_keys
order_by-sort_keys [] = unfold order_part column sort_column codes text_eq in refl
order_by-sort_keys (o ∷ os) =
    let h = has_column-map (o ∷ os) in
    let tie = order_part-ascending in
    elim (Bool-cases (has_field (codes "namespace") (o ∷ os))) [
      | inl e ↦ elim (Bool-cases (has_field (codes "name") (o ∷ os))) [
        | inl e' ↦ simp (h.0, e, h.1, e', append-nil)
        | inr e' ↦ simp (h.0, e, h.1, e', map-append, tie.1)
      ]
      | inr e ↦ elim (Bool-cases (has_field (codes "name") (o ∷ os))) [
        | inl e' ↦ simp (h.0, e, h.1, e', map-append, tie.0)
        | inr e' ↦ simp (h.0, e, h.1, e', map-append, tie.0, tie.1, append_assoc)
      ]
    ]

-- ORDER BY lists the sort keys, each as its column and its direction.
pub build_order_by-sort_keys :
    (q : QuerySpec) → build_order_by q ≡ join (map order_part (sort_keys q.order)) (codes ", ")
unfolding build_order_by
build_order_by-sort_keys q = order_by-sort_keys q.order

-- The cursor compares the sort keys.
pub cursor_fields-sort_keys : (os : List OrderSpec) → cursor_fields os ≡ sort_keys os
unfolding cursor_fields sort_keys
cursor_fields-sort_keys [] = unfold has_field codes text_eq in refl
cursor_fields-sort_keys (o ∷ os) = elim (Bool-cases (has_field (codes "namespace") (o ∷ os))) [
  | inl e ↦ elim (Bool-cases (has_field (codes "name") (o ∷ os))) [
    | inl e' ↦ simp (e, e', append-nil)
    | inr e' ↦ simp (e, e')
  ]
  | inr e ↦ elim (Bool-cases (has_field (codes "name") (o ∷ os))) [
    | inl e' ↦ simp (e, e', append-nil)
    | inr e' ↦ simp (e, e', append_assoc)
  ]
]
