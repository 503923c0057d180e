-- ===== src/Engine/Execution/Report.antt =====
-- The status that executeFlat and executeWithRelations return.
use kube_graphql.Common.{
  ltb, ◌==◌, if◌then◌else◌, Bool-cases, length, All, take, ℤ, pos, eq_ℤ, Text, ℕ, zero, suc, ◌≡◌,
  refl, ap, ◌≢◌, inl, inr, Bool, true, false, ◌||◌, Option, none, some, List, [], ◌∷◌, arith,
}
use kube_graphql.Api.{Time, ObjectsSpec, QuerySpec, ResultList, QueryStatus}
use kube_graphql.Engine.Codec.{Codec}
use kube_graphql.Engine.Execution.{
  extract_last_row_for_cursor, cursor_result, flat_results, truncation_warning, root_count,
  status_of, execute_flat, execute_with_relations,
}
use kube_graphql.Engine.Execution.Cursor.{Continues, cursor_result-Continues}
use kube_graphql.Engine.Execution.Scan.{good_rows, scan_flat_rows-good}
use kube_graphql.Engine.Tree.{FlatRow}
use kube_graphql.Engine.Tree.Roots.{assemble_tree-AllShow}
use kube_graphql.Engine.Tree.Shown.{AllShow, row_to_result-Shows}
use kube_graphql.Engine.Tree.Termination.{root_rows, assemble_tree-Gives}
use kube_graphql.Engine.Validate.{max_total_rows}

-- What a query's status reports of all its rows rs, of which the first 10000 are read: a result for
-- each of the rows `shown`, in order; a count if it is asked for; a cursor that continues behind the
-- last row at level 0; whether it is incomplete; and a warning if rows are left out.
pub record Reports (c : Codec) (format_time : Time → Text) (q : QuerySpec) (n : ℤ)
    (rs shown : List FlatRow) (s : QueryStatus) : Type 0 where
  pub objects : AllShow q.objects shown s.objects
  pub count : s.count ≡ (if q.count then some n else none)
  pub incomplete :
      s.incomplete ≡ (ltb max_total_rows (length rs) || eq_ℤ (pos (length shown)) q.limit)
  pub warnings :
      s.warnings ≡ (if ltb max_total_rows (length rs) then truncation_warning ∷ [] else [])
  pub cursor : Continues c format_time q (take max_total_rows rs) s.cursor

flat_results-AllShow : (o : ObjectsSpec) (rs : List FlatRow) → AllShow o rs (flat_results o rs)
unfolding flat_results
flat_results-AllShow o [] = tt
flat_results-AllShow o (r ∷ rs) = (row_to_result-Shows r o _, flat_results-AllShow o rs)

root_count-rows : (rs : List FlatRow) → root_count rs ≡ length (root_rows rs)
unfolding root_count
root_count-rows [] = refl
root_count-rows (r ∷ rs) = elim (Bool-cases (r.level == 0)) [
  | inl e ↦ rw e (ap suc (root_count-rows rs))
  | inr e ↦ rw e (root_count-rows rs)
]

choose_count :
    (asked : Bool) (n : ℤ) (status : Option ℤ → QueryStatus)
    → (if asked then some (status (some n)) else some (status none))
      ≡ some (status (if asked then some n else none))
choose_count true n status = refl
choose_count false n status = refl

All-take {ℓ κ} : {A : Type ℓ} (P : A → Type κ) (n : ℕ) (xs : List A) → All P xs → All P (take n xs)
All-take P zero xs h = tt
All-take P (suc n) [] h = tt
All-take P (suc n) (x ∷ xs) h = (h.0, All-take P n xs h.1)

status_of-Reports :
    (c : Codec) (format_time : Time → Text) (q : QuerySpec) (n : ℤ) (rs shown : List FlatRow)
    (results : ResultList) (complete : ℕ)
    → AllShow q.objects shown results
    → complete ≡ length shown
    → (s : QueryStatus) × (status_of c format_time q
          (some n)
          (take max_total_rows rs)
          (ltb max_total_rows (length rs))
          results
          complete
        ≡ some s)
      × Reports c format_time q n rs shown s
unfolding status_of
status_of-Reports c format_time q n rs shown results complete show number =
    let flat = take max_total_rows rs in
    let status : Option ℤ → QueryStatus = λ k. record {
      objects = results;
      cursor = cursor_result c q (extract_last_row_for_cursor format_time flat);
      count = k;
      incomplete = ltb max_total_rows (length rs) || eq_ℤ (pos complete) q.limit;
      warnings = if ltb max_total_rows (length rs) then truncation_warning ∷ [] else [];
    } in
    (
      status (if q.count then some n else none),
      choose_count q.count n status,
      record {
        objects = show;
        count = refl;
        incomplete = rw number refl;
        warnings = refl;
        cursor = cursor_result-Continues c format_time q flat;
      },
    )

-- A flat query whose rows all scan and whose count query succeeds has one result for each of the
-- first 10000 rows, in order, which shows the row; the count, if it is asked for; a cursor, if it
-- is asked for and a row is at level 0, that continues behind the last such row; and it is
-- incomplete exactly if there are more rows, or as many of those as its limit.
pub execute_flat-Reports :
    (c : Codec) (format_time : Time → Text) (q : QuerySpec) (n : ℤ) (rs : List FlatRow)
    → (s : QueryStatus) × (execute_flat c format_time q (some n) (good_rows rs) ≡ some s)
      × Reports c format_time q n rs (take max_total_rows rs) s
unfolding execute_flat
execute_flat-Reports c format_time q n rs =
    let flat = take max_total_rows rs in
    let (s, e, r) =
      status_of-Reports c format_time q n rs flat (flat_results q.objects flat) (length flat)
        (flat_results-AllShow q.objects flat) refl in
    (s, rw (scan_flat_rows-good max_total_rows rs (omega arith), execute_flat) e, r)

-- A query with relations whose rows all scan and have a path, and whose count query succeeds, has
-- one result for each row at level 0 among the first 10000 rows, in order, which shows the row; the
-- count, if it is asked for; a cursor, if it is asked for and there is such a row, that continues
-- behind the last of them; and it is incomplete exactly if there are more rows, or as many of those
-- at level 0 as its limit.
pub execute_with_relations-Reports :
    (c : Codec) (format_time : Time → Text) (q : QuerySpec) (n : ℤ) (rs : List FlatRow)
    → All (λ (row : FlatRow). row.path ≢ []) rs
    → (s : QueryStatus) × (execute_with_relations c format_time q (some n) (good_rows rs) ≡ some s)
      × Reports c format_time q n rs (root_rows (take max_total_rows rs)) s
unfolding execute_with_relations
execute_with_relations-Reports c format_time q n rs h =
    let flat = take max_total_rows rs in
    let paths = All-take (λ (row : FlatRow). row.path ≢ []) max_total_rows rs h in
    let (results, built, number) = assemble_tree-Gives flat q.objects paths in
    let (s, e, r) =
      status_of-Reports c format_time q n rs (root_rows flat) results (root_count flat)
        (assemble_tree-AllShow flat q.objects results built) (root_count-rows flat) in
    (
      s,
      rw (scan_flat_rows-good max_total_rows rs (omega arith), execute_with_relations) (rw built e),
      r,
    )
