-- ===== src/Engine/Execute/Answers.antt =====
-- Execute: the response to a query that validation accepts.
use mathlib.Core.Path.{subst}
use kube_graphql.Common.{
  if◌then◌else◌, Bool-cases, Option-cases, All, take, ℤ, Text, codes, ◌≡◌, refl, ◌≢◌, inl, inr,
  Bool, true, false, none, some, List, [],
}
use kube_graphql.Api.{Time, QuerySpec, QueryStatus}
use kube_graphql.Engine.Codec.{Codec}
use kube_graphql.Engine.Execute.{
  Database, Executed, answered, of_assembly, respond, answer, answer_generated, execute,
}
use kube_graphql.Engine.Execution.Report.{
  Reports, execute_flat-Reports, execute_with_relations-Reports,
}
use kube_graphql.Engine.Execution.Scan.{good_rows}
use kube_graphql.Engine.Projection.{build_projection}
use kube_graphql.Engine.Relational.{
  Outcome, finished, failed, out_of_fuel, relational_query, Generated, generated, generator_error,
  out_of_steps, finish, generate_with_relations, asks_relations, of_root, generate,
}
use kube_graphql.Engine.Relational.Nodes.{AllRelations}
use kube_graphql.Engine.Relational.Success.{IsReadable, IsSupported, generate_succeeds}
use kube_graphql.Engine.Relational.Visit.{root_alias}
use kube_graphql.Engine.Root.{GeneratedQuery, root_query, generate_root_only}
use kube_graphql.Engine.Sql.{Arg}
use kube_graphql.Engine.Tree.{FlatRow}
use kube_graphql.Engine.Tree.Termination.{root_rows}
use kube_graphql.Engine.Validate.{max_total_rows, validate}

-- The flag of a generated query.
abbrev HasFlag : Bool → Generated → Type 0
HasFlag b (generated g) = g.has_relations ≡ b
HasFlag b generator_error = Unit
HasFlag b out_of_steps = Unit

module _ (c : Codec) (dialect : Text) (q : QuerySpec) where
  finish-HasFlag : (p : Text) (o : Outcome) → HasFlag true (finish c dialect q p o)
  unfolding finish
  finish-HasFlag p (finished s) = unfold relational_query in refl
  finish-HasFlag p failed = tt
  finish-HasFlag p out_of_fuel = tt

  generate_with_relations-HasFlag : HasFlag true (generate_with_relations c dialect q)
  unfolding generate_with_relations
  generate_with_relations-HasFlag =
      elim (Option-cases (build_projection c dialect q.objects root_alias)) [
        | inl e ↦ rw (e, generate_with_relations) tt
        | inr (p, e) ↦ rw (e, generate_with_relations) (finish-HasFlag p _)
      ]

  generate_root_only-HasFlag : HasFlag false (of_root (generate_root_only c dialect q))
  unfolding generate_root_only of_root
  generate_root_only-HasFlag =
      elim (Option-cases (build_projection c dialect q.objects (codes "obj"))) [
        | inl e ↦ rw (e, generate_root_only) tt
        | inr (p, e) ↦ rw (e, generate_root_only) (unfold root_query in refl)
      ]

  generate-HasFlag : HasFlag (asks_relations q.objects) (generate c dialect q)
  unfolding generate
  generate-HasFlag = elim (Bool-cases (asks_relations q.objects)) [
    | inl e ↦ rw e generate_with_relations-HasFlag
    | inr e ↦ rw e generate_root_only-HasFlag
  ]

-- The database returns these rows, of which each has a path, and this count.
pub record Returns (db : Database) (rs : List FlatRow) (n : ℤ) : Type 0 where
  pub rows : (sql : Text) (args : List Arg) → db.rows sql args ≡ some (good_rows rs)
  pub count : (sql : Text) (args : List Arg) → db.count sql args ≡ some n
  pub paths : All (λ (row : FlatRow). row.path ≢ []) rs

-- The rows that the results show: those at level 0 for a query with relations, and all rows for
-- others, of the first 10000.
abbrev pub shown_rows : QuerySpec → List FlatRow → List FlatRow
shown_rows q rs =
    if asks_relations q.objects then root_rows (take max_total_rows rs) else take max_total_rows rs

-- The response is a status that reports on all rows.
abbrev pub IsAnswered : Codec → (Time → Text) → QuerySpec → ℤ → List FlatRow → Executed → Type 0
IsAnswered c format_time q n rs x =
    (s : QueryStatus) × (x ≡ answered s) × Reports c format_time q n rs (shown_rows q rs) s

module _ (c : Codec) (dialect : Text) (format_time : Time → Text) (rs : List FlatRow) (n : ℤ) where
  respond-IsAnswered :
      (q : QuerySpec)
      → All (λ (row : FlatRow). row.path ≢ []) rs
      → IsAnswered c format_time q n rs
          (respond c format_time q (asks_relations q.objects) (some (good_rows rs)) (some n))
  unfolding respond of_assembly
  respond-IsAnswered q h = elim (Bool-cases (asks_relations q.objects)) [
    | inl e ↦
        let (s, built, r) = execute_with_relations-Reports c format_time q n rs h in
        rw e (s, rw built refl, r)
    | inr e ↦
        let (s, built, r) = execute_flat-Reports c format_time q n rs in rw e (s, rw built refl, r)
  ]

  answer-IsAnswered :
      (db : Database) (q : QuerySpec) (g : GeneratedQuery)
      → Returns db rs n
      → g.has_relations ≡ asks_relations q.objects
      → IsAnswered c format_time q n rs (answer c format_time q db g)
  unfolding answer
  answer-IsAnswered db q g h e =
      rw (e, h.rows g.sql g.args, h.count g.count_sql g.count_args) (respond-IsAnswered q h.paths)

  -- A query that validation accepts is answered, if its projections decode, its transitive
  -- relations are supported, and the database returns rows with paths and a count: the response has
  -- one result for each row at level 0 among the first 10000 rows, or for each of them without
  -- relations, in order, which shows the row; the count, if it is asked for; a cursor, if it is asked
  -- for and there is such a row, that continues behind the last of them; and it is incomplete
  -- exactly if there are more rows, or as many results as its limit.
  pub execute-IsAnswered :
      (db : Database) (q : QuerySpec)
      → Returns db rs n
      → (validate q).0 ≡ none
      → IsReadable c (validate q).1.objects
      → AllRelations (IsSupported c) (validate q).1.objects
      → IsAnswered c format_time (validate q).1 n rs (execute c dialect format_time db q)
  unfolding execute
  execute-IsAnswered db q h valid readable supported =
      let (g, e) = generate_succeeds c dialect (validate q).1 readable supported in
      let flag : HasFlag (asks_relations (validate q).1.objects) (generated g) =
        subst (HasFlag (asks_relations (validate q).1.objects)) e
          (generate-HasFlag c dialect (validate q).1) in
      rw (valid, e, execute)
        (unfold answer_generated in answer-IsAnswered db (validate q).1 g h flag)
