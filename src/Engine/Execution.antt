-- ===== src/Engine/Execution.antt =====
-- internal/engine/engine.go: executeFlat and executeWithRelations, with scanFlatRows and
-- ExtractLastRowForCursor of tree.go. What the database returns is a parameter; logging, metrics and
-- the timeout are left out.
pub mod Scan
pub mod Cursor
pub mod Report
pub mod Paging
use kube_graphql.Common.{
  ltb, leb, ◌==◌, if◌then◌else◌, length, ℤ, pos, eq_ℤ, ◌/ℤ◌, Text, codes, ℕ, suc, Bool, true, false,
  ◌&&◌, ◌||◌, Option, none, some, List, [], ◌∷◌, ◌++◌,
}
use kube_graphql.Api.{
  Time, ObjectsSpec, QuerySpec, ResultMap, ResultList, nil, cons, CursorResult, QueryStatus,
}
use kube_graphql.Engine.Codec.{Codec}
use kube_graphql.Engine.Order.{build_cursor_token}
use kube_graphql.Engine.Tree.{FlatRow, row_to_result, assemble_tree}
use kube_graphql.Engine.Validate.{max_total_rows}

-- sql.Rows: the rows that Next reaches, `none` for one that does not scan, and whether Err reports
-- an error after a number of calls of Next that reached a row.
pub record Rows : Type 0 where
  pub reached : List (Option FlatRow)
  pub failed : ℕ → Bool

-- The loop of `scanFlatRows`, over the rows ahead, with the number of calls of Next so far and the
-- rows scanned so far.
unfoldable pub scan_from :
    ℕ → (ℕ → Bool) → ℕ → List FlatRow → List (Option FlatRow) → Option (List FlatRow × Bool)
scan_from max_rows failed n acc [] = if failed n then none else some (acc, false)
scan_from max_rows failed n acc (r ∷ rs) = elim (ltb 0 max_rows && leb max_rows (length acc)) [
  | true ↦ if failed (suc n) then none else some (acc, true)
  | false ↦ elim r [
    | none ↦ none
    | some row ↦ scan_from max_rows failed (suc n) (acc ++ row ∷ []) rs
  ]
]

-- `scanFlatRows`: the rows and whether it stopped at their maximum.
unfoldable pub scan_flat_rows : Rows → ℕ → Option (List FlatRow × Bool)
scan_flat_rows rows max_rows = scan_from max_rows rows.failed 0 [] rows.reached

-- The last row at level 0.
unfoldable pub last_root : List FlatRow → Option FlatRow
last_root [] = none
last_root (row ∷ rows) = elim (last_root rows) [
  | none ↦ if row.level == 0 then some row else none
  | some r ↦ some r
]

-- The values that the cursor takes from a row; `format_time` is the RFC 3339 format of a time.
unfoldable pub row_values : (Time → Text) → FlatRow → List (Text × Text)
row_values format_time row =
    (codes "name", row.name)
    ∷ (codes "namespace", row.namespace)
    ∷ (codes "kind", row.kind)
    ∷ (codes "apiGroup", row.api_group)
    ∷ (codes "cluster", row.cluster)
    ∷ (elim row.creation_ts [
      | none ↦ []
      | some t ↦ (codes "creationTimestamp", format_time t) ∷ []
    ])

-- `ExtractLastRowForCursor`.
unfoldable pub extract_last_row_for_cursor :
    (Time → Text) → List FlatRow → Option (List (Text × Text))
extract_last_row_for_cursor format_time rows = elim (last_root rows) [
  | none ↦ none
  | some row ↦ some (row_values format_time row)
]

-- `spec.Page.First / spec.Limit`, or 0 without a page.
unfoldable pub page_number : QuerySpec → ℤ
page_number q = elim q.page [ none ↦ pos 0 | some p ↦ p.first /ℤ q.limit ]

-- `status.Cursor`.
unfoldable pub cursor_result : Codec → QuerySpec → Option (List (Text × Text)) → Option CursorResult
cursor_result c q none = none
cursor_result c q (some values) =
    if q.cursor
    then some
        (record { next = build_cursor_token c values; page = page_number q; page_size = q.limit })
    else none

-- The results of a flat query.
unfoldable pub flat_results : ObjectsSpec → List FlatRow → ResultList
flat_results objects [] = nil
flat_results objects (row ∷ rows) =
    cons (row_to_result row objects ResultMap.end) (flat_results objects rows)

-- The warning of a truncated response.
abbrev pub truncation_warning : Text
truncation_warning = codes "response truncated at 10000 total rows"

-- `rootCount` of executeWithRelations.
unfoldable pub root_count : List FlatRow → ℕ
root_count [] = 0
root_count (row ∷ rows) = if row.level == 0 then suc (root_count rows) else root_count rows

-- The part that both functions share, behind the results: `complete` is the number of rows that they
-- compare with the limit, and `count` what the count query returns, `none` for its error.
unfoldable pub status_of :
    Codec
    → (Time → Text)
    → QuerySpec
    → Option ℤ
    → List FlatRow
    → Bool
    → ResultList
    → ℕ
    → Option QueryStatus
status_of c format_time q count rows truncated results complete =
    let status : Option ℤ → QueryStatus = λ n. record {
      objects = results;
      cursor = cursor_result c q (extract_last_row_for_cursor format_time rows);
      count = n;
      incomplete = truncated || eq_ℤ (pos complete) q.limit;
      warnings = if truncated then truncation_warning ∷ [] else [];
    } in
    if q.count
    then elim count [ none ↦ none | some n ↦ some (status (some n)) ]
    else some (status none)

-- `executeFlat`.
unfoldable pub execute_flat :
    Codec → (Time → Text) → QuerySpec → Option ℤ → Rows → Option QueryStatus
execute_flat c format_time q count rows = elim (scan_flat_rows rows max_total_rows) [
  | none ↦ none
  | some (flat_rows, truncated) ↦
      status_of c format_time q count flat_rows truncated (flat_results q.objects flat_rows)
        (length flat_rows)
]

-- `executeWithRelations`; its `none` stands for an error too, and never for a lack of fuel.
unfoldable pub execute_with_relations :
    Codec → (Time → Text) → QuerySpec → Option ℤ → Rows → Option QueryStatus
execute_with_relations c format_time q count rows = elim (scan_flat_rows rows max_total_rows) [
  | none ↦ none
  | some (flat_rows, truncated) ↦ elim (assemble_tree flat_rows q.objects) [
    | none ↦ none
    | some results ↦
        status_of c format_time q count flat_rows truncated results (root_count flat_rows)
  ]
]
