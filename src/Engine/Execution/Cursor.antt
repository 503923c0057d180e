-- ===== src/Engine/Execution/Cursor.antt =====
-- The cursor of a response, described by the row that it continues behind.
use kube_graphql.Common.{
  if◌then◌else◌, Option-cases, lookup, All, pos, ◌/ℤ◌, Text, codes, text_eq, ◌≡◌, refl, ap, ◌∙◌,
  ◌≢◌, inl, inr, true, false, Option, none, some, List, [], ◌∷◌, ◌++◌, arith,
}
use kube_graphql.Api.{Time, QuerySpec, CursorResult}
use kube_graphql.Engine.Codec.{Codec}
use kube_graphql.Engine.Execution.{
  last_root, row_values, extract_last_row_for_cursor, page_number, cursor_result,
}
use kube_graphql.Engine.Order.{or_empty, build_cursor_token}
use kube_graphql.Engine.Tree.{FlatRow}

-- No row of the list is at level 0.
abbrev pub HasNoRoot : List FlatRow → Type 0
HasNoRoot = All (λ (r : FlatRow). r.level ≢ 0)

-- The row is the last of the list at level 0.
pub record IsLastRoot (row : FlatRow) (rows : List FlatRow) : Type 0 where
  pub before : List FlatRow
  pub behind : List FlatRow
  pub place : rows ≡ before ++ row ∷ behind
  pub root : row.level ≡ 0
  pub rest : HasNoRoot behind

last_root-HasNoRoot : (rows : List FlatRow) → HasNoRoot rows → last_root rows ≡ none
unfolding last_root
last_root-HasNoRoot [] h = refl
last_root-HasNoRoot (r ∷ rows) h = rw (last_root-HasNoRoot rows h.1) (ground (arith, h.0))

last_root-append :
    (before behind : List FlatRow) (row : FlatRow)
    → row.level ≡ 0
    → HasNoRoot behind
    → last_root (before ++ row ∷ behind) ≡ some row
unfolding last_root
last_root-append [] behind row e h = rw (last_root-HasNoRoot behind h) (ground (arith, e))
last_root-append (r ∷ before) behind row e h = rw (last_root-append before behind row e h) refl

pub last_root-IsLastRoot :
    (row : FlatRow) (rows : List FlatRow) → IsLastRoot row rows → last_root rows ≡ some row
last_root-IsLastRoot row rows h =
    ap last_root h.place ∙ last_root-append h.before h.behind row h.root h.rest

-- What a row holds in the field of a sort key; "" for a creation time that is missing, and for any
-- other key.
unfoldable pub row_field : (Time → Text) → FlatRow → Text → Text
row_field format_time row key =
    if text_eq (codes "name") key
    then row.name
    else if text_eq (codes "namespace") key
    then row.namespace
    else if text_eq (codes "kind") key
    then row.kind
    else if text_eq (codes "apiGroup") key
    then row.api_group
    else if text_eq (codes "cluster") key
    then row.cluster
    else if text_eq (codes "creationTimestamp") key
    then elim row.creation_ts [ none ↦ [] | some t ↦ format_time t ]
    else []

-- A cursor's values are those of the row.
pub lookup-row_values :
    (format_time : Time → Text) (row : FlatRow) (key : Text)
    → or_empty (lookup key (row_values format_time row)) ≡ row_field format_time row key
unfolding row_values row_field
lookup-row_values format_time row key = elim (Option-cases row.creation_ts) [
  | inl e ↦ rw e (ground arith)
  | inr (t, e) ↦ rw e (ground arith)
]

-- The cursor that a query asks for continues behind the last row at level 0: its token encodes what
-- that row holds, and its page and its size are those of the query. It is missing exactly if it is
-- not asked for or no row is at level 0.
pub record Continues (c : Codec) (format_time : Time → Text) (q : QuerySpec) (rows : List FlatRow)
    (cursor : Option CursorResult) : Type 0 where
  pub skipped : q.cursor ≡ false → cursor ≡ none
  pub rootless : HasNoRoot rows → cursor ≡ none
  pub given :
      (row : FlatRow)
      → q.cursor ≡ true
      → IsLastRoot row rows
      → (values : List (Text × Text)) × ((key : Text)
          → or_empty (lookup key values) ≡ row_field format_time row key)
        × (cursor
            ≡ some (record {
              next = build_cursor_token c values;
              page = elim q.page [ none ↦ pos 0 | some p ↦ p.first /ℤ q.limit ];
              page_size = q.limit;
            }))

pub cursor_result-Continues :
    (c : Codec) (format_time : Time → Text) (q : QuerySpec) (rows : List FlatRow)
    → Continues c format_time q rows
        (cursor_result c q (extract_last_row_for_cursor format_time rows))
unfolding cursor_result extract_last_row_for_cursor page_number
cursor_result-Continues c format_time q rows = record {
  skipped = λ no. elim (Option-cases (last_root rows)) [
    | inl e ↦ rw (extract_last_row_for_cursor, e) refl
    | inr (row, e) ↦ rw (extract_last_row_for_cursor, e, no) refl
  ];
  rootless = λ h. rw (extract_last_row_for_cursor, last_root-HasNoRoot rows h) refl;
  given = λ row asked h. (
    row_values format_time row,
    lookup-row_values format_time row,
    rw (extract_last_row_for_cursor, last_root-IsLastRoot row rows h, asked) refl,
  );
}
