-- ===== src/Tests/Creation.antt =====
-- A Query that is created, and created once more with what was returned.
use kube_graphql.Common.{pos, Text, codes, ◌≡◌, refl, false, none, [], ◌∷◌}
use kube_graphql.Api.{ResultList, QueryStatus}
use kube_graphql.Engine.Execute.{execute}
use kube_graphql.Engine.Execute.Answers.{IsAnswered, execute-IsAnswered}
use kube_graphql.Engine.Validate.{validate}
use kube_graphql.Server.{Query, created, with_status, create}
use kube_graphql.Server.Again.{create-create}
use kube_graphql.Tests.Relational.{
  codec, query, sqlite, accepted, format_time, row, one_row, returns, validated_readable,
  validated_supported,
}

response :
    IsAnswered codec format_time
      (validate query).1
      (pos 1)
      (row ∷ [])
      (execute codec sqlite format_time one_row query)
response =
    execute-IsAnswered codec sqlite format_time (row ∷ []) (pos 1) one_row query returns accepted
      validated_readable validated_supported

abbrev no_status : QueryStatus
no_status = record {
  objects = ResultList.nil;
  cursor = none;
  count = none;
  incomplete = false;
  warnings = [];
}

abbrev request : Query Text
request = record { metadata = codes "name"; spec = query; status = no_status }

abbrev given : QueryStatus
given = response.0

abbrev returned : Query Text
returned = record request { spec = (validate query).1; status = given }

first : create codec sqlite format_time one_row none request ≡ created returned
unfolding create with_status
first = rw response.1 refl

create-create_example : create codec sqlite format_time one_row none returned ≡ created returned
create-create_example =
    create-create codec sqlite format_time one_row none request returned first refl
