-- ===== src/Engine/Execution/Paging.antt =====
-- From the cursor of one response (engine.go) to the filter of the next query (generator.go).
use mathlib.Core.Option.{some-injective}
use kube_graphql.Common.{
  Bool-cases, Text, is_empty, ◌≡◌, sym, ap, ◌∙◌, inl, inr, false, some, List, map,
}
use kube_graphql.Api.{Time, PageSpec, OrderSpec, QuerySpec, CursorResult}
use kube_graphql.Engine.Codec.{Codec}
use kube_graphql.Engine.Execution.{row_values, extract_last_row_for_cursor, cursor_result}
use kube_graphql.Engine.Execution.Cursor.{
  IsLastRoot, last_root-IsLastRoot, row_field, lookup-row_values,
}
use kube_graphql.Engine.Order.{
  cursor_operator, decode_token, build_cursor_filter, build_cursor_token,
}
use kube_graphql.Engine.Order.Cursor.{
  row_comparison, key_columns, key_values, build_cursor_filter-sort_keys,
}
use kube_graphql.Engine.Order.Keys.{sort_keys}
use kube_graphql.Engine.Sql.{Arg, text}
use kube_graphql.Engine.Tree.{FlatRow}

-- What the cursor relies on: decoding undoes encoding, for JSON and for base64.
pub record RoundTrips (c : Codec) : Type 0 where
  pub cursor :
      (values : List (Text × Text)) → c.unmarshal_cursor (c.marshal_cursor values) ≡ some values
  pub base64 : (bytes : Text) → c.base64_decode (c.base64_encode bytes) ≡ some bytes

decode_token-build_cursor_token :
    (c : Codec) (values : List (Text × Text))
    → RoundTrips c
    → decode_token c (build_cursor_token c values) ≡ some values
unfolding decode_token build_cursor_token
decode_token-build_cursor_token c values laws =
    rw (laws.base64 (c.marshal_cursor values), decode_token) (laws.cursor values)

cursor_result-next :
    (c : Codec) (q : QuerySpec) (values : List (Text × Text)) (r : CursorResult)
    → cursor_result c q (some values) ≡ some r
    → build_cursor_token c values ≡ r.next
unfolding cursor_result
cursor_result-next c q values r e = elim (Bool-cases q.cursor) [
  | inl asked ↦
      ap (λ (x : CursorResult). x.next) (some-injective _ _ (rw (asked, cursor_result) at e))
  | inr skipped ↦ cc (rw (skipped, cursor_result) at e)
]

-- What a row holds in the fields of a query's sort keys.
abbrev pub row_keys : (Time → Text) → List OrderSpec → FlatRow → List Arg
row_keys format_time os row =
    map (λ (o : OrderSpec). text (row_field format_time row o.field)) (sort_keys os)

key_values-row_values :
    (format_time : Time → Text) (os : List OrderSpec) (row : FlatRow)
    → key_values os (row_values format_time row) ≡ row_keys format_time os row
key_values-row_values format_time os row = simp (lookup-row_values format_time row)

-- If a response to q carries a cursor made of its rows, of which row is the last at level 0, then a
-- next query with that cursor on its page compares the columns of its sort keys with what row holds
-- in their fields. The codec must decode what it encodes, and the token must not be empty.
pub build_cursor_filter-cursor_result :
    (c : Codec) (format_time : Time → Text) (q next : QuerySpec) (rows : List FlatRow)
    (row : FlatRow) (r : CursorResult) (p : PageSpec)
    → RoundTrips c
    → IsLastRoot row rows
    → cursor_result c q (extract_last_row_for_cursor format_time rows) ≡ some r
    → next.page ≡ some p
    → p.cursor ≡ r.next
    → is_empty r.next ≡ false
    → build_cursor_filter c next ≡ (
      row_comparison (key_columns next.order) (cursor_operator next.order),
      row_keys format_time next.order row,
    )
unfolding extract_last_row_for_cursor
build_cursor_filter-cursor_result c format_time q next rows row r p laws last given page token
      full =
    let values = row_values format_time row in
    let given_row : cursor_result c q (some values) ≡ some r =
      rw (last_root-IsLastRoot row rows last, extract_last_row_for_cursor) at given in
    let made : p.cursor ≡ build_cursor_token c values =
      token ∙ sym (cursor_result-next c q values r given_row) in
    rw⁻¹ (key_values-row_values format_time next.order row) (
      build_cursor_filter-sort_keys c next p values page (ap is_empty token ∙ full)
        (ap (decode_token c) made ∙ decode_token-build_cursor_token c values laws))
