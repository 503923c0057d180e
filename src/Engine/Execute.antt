-- ===== src/Engine/Execute.antt =====
-- Execute of internal/engine/engine.go: validation, generation, the query and the assembly of the
-- response. The timeout, the log and the metrics are left out.
pub mod Bound
pub mod Answers
use kube_graphql.Common.{if◌then◌else◌, ℤ, Text, Bool, Option, none, some, List}
use kube_graphql.Api.{Time, QuerySpec, QueryStatus}
use kube_graphql.Engine.Codec.{Codec}
use kube_graphql.Engine.Execution.{Rows, execute_flat, execute_with_relations}
use kube_graphql.Engine.Relational.{Generated, generated, generator_error, out_of_steps, generate}
use kube_graphql.Engine.Root.{GeneratedQuery}
use kube_graphql.Engine.Sql.{Arg}
use kube_graphql.Engine.Validate.{ValidationError, validate}

-- What the database answers to a statement and its arguments; `none` is its error.
pub record Database : Type 0 where
  pub rows : Text → List Arg → Option Rows
  pub count : Text → List Arg → Option ℤ

-- The stages at which Execute returns an error.
pub data ExecuteError : Type 0 where
  validation : ValidationError → ExecuteError
  generation execution assembly : ExecuteError

pub data Executed : Type 0 where
  answered : QueryStatus → Executed
  refused : ExecuteError → Executed
  no_answer : Executed

unfoldable pub of_assembly : Option QueryStatus → Executed
of_assembly none = refused assembly
of_assembly (some s) = answered s

module _ (c : Codec) (format_time : Time → Text) (q : QuerySpec) where
  -- The response made of what the database returns for both statements.
  unfoldable pub respond : Bool → Option Rows → Option ℤ → Executed
  respond has_relations none count = refused execution
  respond has_relations (some rows) count = of_assembly (
      if has_relations
      then execute_with_relations c format_time q count rows
      else execute_flat c format_time q count rows)

  unfoldable pub answer : Database → GeneratedQuery → Executed
  answer db g = respond g.has_relations (db.rows g.sql g.args) (db.count g.count_sql g.count_args)

  unfoldable pub answer_generated : Database → Generated → Executed
  answer_generated db (generated g) = answer db g
  answer_generated db generator_error = refused generation
  answer_generated db out_of_steps = no_answer

-- `Execute`; validation changes the query in place.
unfoldable pub execute : Codec → Text → (Time → Text) → Database → QuerySpec → Executed
execute c dialect format_time db q = elim (validate q).0 [
  | some e ↦ refused (validation e)
  | none ↦ answer_generated c format_time (validate q).1 db (generate c dialect (validate q).1)
]
