-- ===== src/Tests/Execution.antt =====
-- A row and its child, for runs of the theorems on assembly and execution.
use kube_graphql.Common.{
  length, All, take, pos, Text, codes, ℕ, ◌≡◌, ◌≢◌, true, false, none, some, List, [], ◌∷◌, arith,
}
use kube_graphql.Api.{
  Time, ObjectsSpec, shape, RelationMap, relation, spec, QuerySpec, ResultList, QueryStatus,
}
use kube_graphql.Engine.Codec.{Codec}
use kube_graphql.Engine.Execution.{execute_flat, execute_with_relations}
use kube_graphql.Engine.Execution.Report.{
  Reports, execute_flat-Reports, execute_with_relations-Reports,
}
use kube_graphql.Engine.Execution.Scan.{good_rows}
use kube_graphql.Engine.Tree.{FlatRow, assemble_tree}
use kube_graphql.Engine.Tree.Termination.{result_count, root_rows, assemble_tree-Gives}
use kube_graphql.Engine.Validate.{max_total_rows}

abbrev codec : Codec
codec = record {
  marshal_map = λ m. [];
  marshal_maps = λ ms. [];
  marshal_cursor = λ values. codes "cursor";
  unmarshal_cursor = λ bytes. some [];
  base64_encode = λ bytes. bytes;
  base64_decode = λ token. some token;
  unmarshal_any = λ raw. none;
}

abbrev format_time : Time → Text
format_time t = codes "2024-01-01T00:00:00Z"

abbrev row_at : Text → ℕ → Text → FlatRow
row_at path level name = record {
  id = name;
  uid = name;
  cluster = codes "one";
  api_group = [];
  api_version = codes "v1";
  kind = codes "Pod";
  resource = codes "pods";
  namespace = codes "default";
  name = name;
  labels = none;
  annotations = none;
  owner_refs = none;
  conditions = none;
  creation_ts = none;
  resource_version = codes "1";
  projected_object = some (codes "{}");
  path = path;
  level = level;
  relation_name = codes "descendants";
}

abbrev rows : List FlatRow
rows =
    row_at (codes ".deployment.default/web") 0 (codes "web")
    ∷ row_at (codes ".deployment.default/web.pod.default/web-1") 1 (codes "web-1")
    ∷ []

paths-ne : All (λ (row : FlatRow). row.path ≢ []) rows
unfolding codes
paths-ne = (λ e. ground (arith, e), (λ e. ground (arith, e), tt))

abbrev pods_below : ObjectsSpec
pods_below = shape true true true none (
    relation (codes "descendants") (spec (pos 10) [] (shape true false false none RelationMap.end))
      RelationMap.end)

abbrev query : QuerySpec
query = record {
  cluster = none;
  filter = none;
  limit = pos 1;
  page = none;
  order = [];
  count = true;
  cursor = true;
  max_depth = pos 10;
  objects = pods_below;
}

assemble_tree-Gives_example :
    (rs : ResultList) × (assemble_tree rows pods_below ≡ some rs)
    × (result_count rs ≡ length (root_rows rows))
assemble_tree-Gives_example = assemble_tree-Gives rows pods_below paths-ne

execute_flat-Reports_example :
    (s : QueryStatus) × (execute_flat codec format_time query (some (pos 7)) (good_rows rows)
      ≡ some s)
    × Reports codec format_time query (pos 7) rows (take max_total_rows rows) s
execute_flat-Reports_example = execute_flat-Reports codec format_time query (pos 7) rows

execute_with_relations-Reports_example :
    (s : QueryStatus) × (execute_with_relations codec format_time query
        (some (pos 7))
        (good_rows rows)
      ≡ some s)
    × Reports codec format_time query (pos 7) rows (root_rows (take max_total_rows rows)) s
execute_with_relations-Reports_example =
    execute_with_relations-Reports codec format_time query (pos 7) rows paths-ne
