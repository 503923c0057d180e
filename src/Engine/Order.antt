-- ===== src/Engine/Order.antt =====
-- ORDER BY and keyset pagination: buildOrderBy, buildCursorFilter and BuildCursorToken of
-- internal/engine/generator.go.
pub mod Keys
pub mod Cursor
use kube_graphql.Common.{
  ℕ, zero, suc, Bool, ◌||◌, false, true, false, not, ◌&&◌, Option, none, some, List, [], ◌∷◌, ◌++◌,
  map, Text, codes, join, split, text_eq, is_empty, lookup, some_of, length, if◌then◌else◌,
}
use kube_graphql.Api.{OrderSpec, PageSpec, sort_asc, sort_desc, QuerySpec}
use kube_graphql.Engine.Sql.{Arg, text}
use kube_graphql.Engine.Codec.{Codec}
use kube_graphql.Engine.Validate.{sort_column}

-- What a read of a map of strings gives: "" for a missing key.
abbrev pub or_empty : Option Text → Text
or_empty none = []
or_empty (some s) = s

-- `ValidSortFields[field]`, read as a string.
unfoldable pub column : Text → Text
column field = or_empty (sort_column field)

-- `col+" "+dir`.
unfoldable pub order_part : OrderSpec → Text
order_part o =
    column o.field
    ++ (codes " " ++ (if text_eq o.direction sort_desc then codes "DESC" else codes "ASC"))

-- `strings.Split(p, " ")[0]`.
unfoldable pub first_word : Text → Text
first_word p = elim (split p b' ') [ [] ↦ [] | w ∷ ws ↦ w ]

-- Whether the set `tiebreakers` holds a column.
unfoldable pub has_column : Text → List Text → Bool
has_column c [] = false
has_column c (p ∷ ps) = text_eq (first_word p) c || has_column c ps

-- Whether some order names a field: the flags `hasNamespace` and `hasName` after the loop.
unfoldable pub has_field : Text → List OrderSpec → Bool
has_field f [] = false
has_field f (o ∷ os) = text_eq o.field f || has_field f os

-- The clause for a list of requested orders.
unfoldable pub order_by : List OrderSpec → Text
order_by order =
    let parts = map order_part order in
    let with_namespace =
      if has_column (codes "obj.namespace") parts
      then parts
      else parts ++ codes "obj.namespace ASC" ∷ [] in
    let with_name =
      if has_column (codes "obj.name") parts
      then with_namespace
      else with_namespace ++ codes "obj.name ASC" ∷ [] in
    elim order [ [] ↦ codes "obj.name ASC, obj.namespace ASC" | _ ↦ join with_name (codes ", ") ]

-- `buildOrderBy`.
unfoldable pub build_order_by : QuerySpec → Text
build_order_by q = order_by q.order

abbrev pub ascending : Text → OrderSpec
ascending field = record { field = field; direction = sort_asc }

-- The order fields that the cursor compares: those requested, name if none is, and then the
-- tiebreakers that are missing.
unfoldable pub cursor_fields : List OrderSpec → List OrderSpec
cursor_fields order =
    let fields : List OrderSpec = elim order [
      | [] ↦ ascending (codes "name") ∷ []
      | o ∷ os ↦ o ∷ os
    ] in
    let has_namespace = has_field (codes "namespace") fields in
    let has_name = has_field (codes "name") fields in
    let fields₁ = if has_namespace then fields else fields ++ ascending (codes "namespace") ∷ [] in
    if has_name then fields₁ else fields₁ ++ ascending (codes "name") ∷ []

-- `strings.Repeat`.
unfoldable pub repeat : Text → ℕ → Text
repeat s zero = []
repeat s (suc n) = s ++ repeat s n

-- The slice `xs[:n]` of a list of at least n parts.
unfoldable pub prefix : ℕ → List Text → List Text
prefix zero xs = []
prefix (suc n) [] = []
prefix (suc n) (x ∷ xs) = x ∷ prefix n xs

-- `<` if the first requested order is descending, and `>` otherwise.
unfoldable pub cursor_operator : List OrderSpec → Text
cursor_operator [] = codes ">"
cursor_operator (o ∷ os) = if text_eq o.direction sort_desc then codes "<" else codes ">"

-- The clause for a decoded cursor, with its arguments.
unfoldable pub cursor_clause : List OrderSpec → List (Text × Text) → Text × List Arg
cursor_clause order values =
    let fields = cursor_fields order in
    let columns = map (λ (o : OrderSpec). column o.field) fields in
    let args = map (λ (o : OrderSpec). text (or_empty (lookup o.field values))) fields in
    let holes = prefix (length columns) (split (repeat (codes "?,") (length columns)) b',') in
    (
      codes "("
          ++ (join columns (codes ", ")
              ++ (codes ") "
                  ++ (cursor_operator order
                      ++ (codes " (" ++ (join holes (codes ", ") ++ codes ")"))))),
      args,
    )

module _ (c : Codec) where
  -- The values of a token, if both decoders accept it.
  unfoldable pub decode_token : Text → Option (List (Text × Text))
  decode_token token = elim (c.base64_decode token) [
    | none ↦ none
    | some bytes ↦ c.unmarshal_cursor bytes
  ]

  -- `buildCursorFilter`: no clause without a cursor or for a token that does not decode.
  unfoldable pub build_cursor_filter : QuerySpec → Text × List Arg
  build_cursor_filter q = elim q.page [
    | none ↦ ([], [])
    | some p ↦ if is_empty p.cursor then ([], []) else elim (decode_token p.cursor) [
      | none ↦ ([], [])
      | some values ↦ cursor_clause q.order values
    ]
  ]

  -- `BuildCursorToken`.
  unfoldable pub build_cursor_token : List (Text × Text) → Text
  build_cursor_token values = c.base64_encode (c.marshal_cursor values)
