-- ===== src/Tests/Relational.antt =====
-- A query with relations, one of them transitive, for runs of generation and execution.
pub mod Order
use mathlib.Core.Path.{subst}
use mathlib.Core.Option.{some-injective}
use kube_graphql.Common.{
  All, pos, Text, codes, text_eq, ◌≡◌, refl, inl, true, false, none, some, [], ◌∷◌, arith,
}
use kube_graphql.Api.{
  Time, ObjectFilter, QueryFilter, ObjectsSpec, absent, shape, RelationMap, relation, spec,
  QuerySpec,
}
use kube_graphql.Engine.Codec.{boolean, object, no_fields, field, Codec}
use kube_graphql.Engine.Execute.{Database, execute}
use kube_graphql.Engine.Execute.Answers.{Returns, IsAnswered, execute-IsAnswered}
use kube_graphql.Engine.Execute.Bound.{strict, IsPlainQuery, execute-strict}
use kube_graphql.Engine.Execution.Scan.{good_rows}
use kube_graphql.Engine.Filter.Arguments.{HasPlainKeys}
use kube_graphql.Engine.Filter.Placeholders.{stray}
use kube_graphql.Engine.Projection.Plain.{IsPlainJson}
use kube_graphql.Engine.Relational.{collect_relations, generate_fuel, generated, generate}
use kube_graphql.Engine.Relational.Arguments.{generate-marks}
use kube_graphql.Engine.Relational.Bounds.{HasBranches, validate-HasBranches}
use kube_graphql.Engine.Relational.Nodes.{AllRelations, AllOf, AllBelow}
use kube_graphql.Engine.Relational.Placeholders.{IsPlainRelation}
use kube_graphql.Engine.Relational.Success.{IsReadable, IsSupported, generate_succeeds}
use kube_graphql.Engine.Relational.Visit.{spec_filters, spec_objects}
use kube_graphql.Engine.Relations.{has_suffix, trim_suffix, is_transitive, base_relation}
use kube_graphql.Engine.Root.{GeneratedQuery}
use kube_graphql.Engine.Root.Arguments.{BindsAll}
use kube_graphql.Engine.Root.Placeholders.{HasPlainNames, stray_filters, stray_query}
use kube_graphql.Engine.Sql.{marks}
use kube_graphql.Engine.Tree.{FlatRow}
use kube_graphql.Engine.Validate.{
  max_relation_blocks, sort_column, relation_count, count_relation_blocks, count_below,
  is_direction, check_order, check_page, check_relations, with_limit, with_max_depth, check_rest,
  validate,
}

abbrev pub codec : Codec
codec = record {
  marshal_map = λ m. codes "{}";
  marshal_maps = λ ms. codes "[]";
  marshal_cursor = λ values. codes "cursor";
  unmarshal_cursor = λ bytes. some [];
  base64_encode = λ bytes. bytes;
  base64_decode = λ token. some token;
  unmarshal_any = λ raw. some (object (field (codes "spec") (boolean true) no_fields));
}

abbrev named_web : ObjectFilter
named_web = record {
  group_kind = none;
  name = codes "web";
  namespace = [];
  labels = (codes "app", codes "web") ∷ [];
  label_expressions = [];
  conditions = [];
  creation_timestamp = none;
  id = [];
  json_path = [];
  categories = [];
}

abbrev references_below : ObjectsSpec
references_below =
    shape true true true (some (codes "{}"))
      (relation (codes "references") (spec (pos 0) [] absent) RelationMap.end)

abbrev tree : ObjectsSpec
tree = shape true true true none (
    relation (codes "owners") (spec (pos 5) (named_web ∷ []) absent) (
      relation (codes "descendants+") (spec (pos 0) (named_web ∷ []) references_below)
        RelationMap.end))

abbrev pub query : QuerySpec
query = record {
  cluster = none;
  filter = some (record { objects = named_web ∷ [] });
  limit = pos 20;
  page = none;
  order = [];
  count = true;
  cursor = false;
  max_depth = pos 3;
  objects = tree;
}

abbrev pub sqlite : Text
sqlite = codes "sqlite"

pub accepted : (validate query).0 ≡ none
unfolding validate with_limit with_max_depth check_rest check_order sort_column is_direction
    check_page check_relations codes text_eq count_relation_blocks relation_count count_below
accepted = refl

validate-HasBranches_example :
    HasBranches max_relation_blocks
      (collect_relations codec sqlite (validate query).1 (generate_fuel (validate query).1))
validate-HasBranches_example = validate-HasBranches codec sqlite query accepted

readable : IsReadable codec query.objects
readable = tt

owners_supported : IsSupported codec (codes "owners") (spec (pos 5) (named_web ∷ []) absent)
unfolding spec_objects is_transitive has_suffix codes
owners_supported = record { projection = tt; transitive = λ t. ground (arith, t) }

references_supported : IsSupported codec (codes "references") (spec (pos 0) [] absent)
unfolding spec_objects is_transitive has_suffix codes
references_supported = record { projection = tt; transitive = λ t. ground (arith, t) }

descendants_supported :
    IsSupported codec (codes "descendants+") (spec (pos 0) (named_web ∷ []) references_below)
unfolding spec_objects base_relation trim_suffix codes
descendants_supported = record { projection = λ _. (_, refl); transitive = λ _. inl (inl refl) }

supported : AllRelations (IsSupported codec) query.objects
unfolding AllRelations AllOf AllBelow
supported =
    (owners_supported, (tt, (descendants_supported, ((references_supported, (tt, tt)), tt))))

generate_succeeds_example : (g : GeneratedQuery) × (generate codec sqlite query ≡ generated g)
generate_succeeds_example = generate_succeeds codec sqlite query readable supported

plain_keys : HasPlainKeys named_web
unfolding marks codes
plain_keys = record { labels = (refl, tt); expressions = tt }

plain_names : HasPlainNames codec query
unfolding marks codes
plain_names = record {
  cluster = λ f e. cc e;
  filter = λ f e.
      subst (λ (g : QueryFilter). All HasPlainKeys g.objects) (some-injective _ _ e)
        (plain_keys, tt);
  projection = tt;
}

plain_owners : IsPlainRelation codec sqlite (codes "owners") (spec (pos 5) (named_web ∷ []) absent)
unfolding spec_filters spec_objects marks codes stray_filters stray
plain_owners = record { plain = refl; keys = (plain_keys, tt); operators = refl; projection = tt }

plain_references : IsPlainRelation codec sqlite (codes "references") (spec (pos 0) [] absent)
unfolding spec_filters spec_objects marks codes stray_filters
plain_references = record { plain = refl; keys = tt; operators = refl; projection = tt }

plain_descendants :
    IsPlainRelation codec sqlite
      (codes "descendants+")
      (spec (pos 0) (named_web ∷ []) references_below)
unfolding spec_filters spec_objects marks codes stray_filters stray
plain_descendants = record {
  plain = refl;
  keys = (plain_keys, tt);
  operators = refl;
  projection = λ json e. subst IsPlainJson (some-injective _ _ e) (refl, tt, tt);
}

plain : IsPlainQuery codec sqlite query
unfolding AllRelations AllOf AllBelow stray_query stray_filters stray
plain = record {
  tree = record {
    names = plain_names;
    relations = (plain_owners, (tt, (plain_descendants, ((plain_references, (tt, tt)), tt))));
  };
  operators = refl;
}

generate-marks_example :
    BindsAll sqlite query (generate_succeeds codec sqlite query readable supported).0
generate-marks_example =
    generate-marks codec sqlite query (generate_succeeds codec sqlite query readable supported).0
      plain.tree (generate_succeeds codec sqlite query readable supported).1

abbrev pub format_time : Time → Text
format_time t = codes "2024-01-01T00:00:00Z"

abbrev pub row : FlatRow
row = record {
  id = codes "1";
  uid = codes "1";
  cluster = codes "one";
  api_group = [];
  api_version = codes "v1";
  kind = codes "Pod";
  resource = codes "pods";
  namespace = codes "default";
  name = codes "web";
  labels = none;
  annotations = none;
  owner_refs = none;
  conditions = none;
  creation_ts = none;
  resource_version = codes "1";
  projected_object = some (codes "{}");
  path = codes ".pod.default/web";
  level = 0;
  relation_name = [];
}

abbrev pub one_row : Database
one_row = record {
  rows = λ sql args. some (good_rows (row ∷ []));
  count = λ sql args. some (pos 1);
}

pub returns : Returns one_row (row ∷ []) (pos 1)
unfolding codes
returns = record {
  rows = λ sql args. refl;
  count = λ sql args. refl;
  paths = (λ e. ground (arith, e), tt);
}

execute-strict_example :
    execute codec sqlite format_time (strict one_row) query
    ≡ execute codec sqlite format_time one_row query
execute-strict_example = execute-strict codec sqlite format_time one_row query plain

pub validated_readable : IsReadable codec (validate query).1.objects
unfolding validate with_limit with_max_depth
validated_readable = readable

pub validated_supported : AllRelations (IsSupported codec) (validate query).1.objects
unfolding validate with_limit with_max_depth
validated_supported = supported

execute-IsAnswered_example :
    IsAnswered codec format_time
      (validate query).1
      (pos 1)
      (row ∷ [])
      (execute codec sqlite format_time one_row query)
execute-IsAnswered_example =
    execute-IsAnswered codec sqlite format_time (row ∷ []) (pos 1) one_row query returns accepted
      validated_readable validated_supported
