-- ===== src/Server.antt =====
-- internal/server/handler.go: the request that creates a Query. Its metadata and the validation of
-- the API server are parameters.
pub mod Again
use kube_graphql.Common.{if◌then◌else◌, Text, Bool, true, Option, none, some}
use kube_graphql.Api.{Time, QuerySpec, QueryStatus}
use kube_graphql.Engine.Codec.{Codec}
use kube_graphql.Engine.Execute.{
  Database, ExecuteError, Executed, answered, refused, no_answer, execute,
}
use kube_graphql.Engine.Validate.{validate}

-- Query of apis/query/v1alpha1/types.go.
pub record Query (Meta : Type 0) : Type 0 where
  pub metadata : Meta
  pub spec : QuerySpec
  pub status : QueryStatus

pub data Created (Meta : Type 0) : Type 0 where
  created : Query Meta → Created Meta
  not_valid : Created Meta
  not_executed : ExecuteError → Created Meta
  not_answered : Created Meta

module _ {Meta : Type 0} where
  -- `createValidation`, where there is one.
  abbrev pub is_valid : Option (Query Meta → Bool) → Query Meta → Bool
  is_valid none x = true
  is_valid (some create_validation) x = create_validation x

  -- The query with the defaults that Execute has filled in, and with its status.
  unfoldable pub with_status : Query Meta → Executed → Created Meta
  with_status x (answered s) = created (record x { spec = (validate x.spec).1; status = s })
  with_status x (refused e) = not_executed e
  with_status x no_answer = not_answered

  -- `Create`.
  unfoldable pub create :
      Codec
      → Text
      → (Time → Text)
      → Database
      → Option (Query Meta → Bool)
      → Query Meta
      → Created Meta
  create c dialect format_time db create_validation x =
      if is_valid create_validation x
      then with_status x (execute c dialect format_time db x.spec)
      else not_valid
