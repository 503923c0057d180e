-- ===== src/Tests/Queries.antt =====
-- Queries, filters and a codec for runs of the engine's theorems.
use mathlib.Core.Option.{some-injective}
use mathlib.Core.Path.{subst}
use kube_graphql.Common.{
  All, pos, Text, codes, text_eq, is_empty, join, concat, ◌≡◌, refl, ◌↔◌, true, false, none, some,
  List, [], ◌∷◌, map,
}
use kube_graphql.Api.{
  ClusterFilter, in_set, exists, ObjectFilter, QueryFilter, PageSpec, OrderSpec, ObjectsSpec, shape,
  RelationMap, QuerySpec,
}
use kube_graphql.Engine.Codec.{boolean, object, no_fields, field, Codec}
use kube_graphql.Engine.Filter.{build_object_filter_with_rt}
use kube_graphql.Engine.Filter.Arguments.{HasPlainKeys, build_object_filter_with_rt-Exceeds}
use kube_graphql.Engine.Filter.Labels.{is_postgres}
use kube_graphql.Engine.Filter.Placeholders.{stray}
use kube_graphql.Engine.Order.{
  order_part, build_order_by, cursor_operator, decode_token, build_cursor_filter,
}
use kube_graphql.Engine.Order.Cursor.{
  row_comparison, key_columns, key_values, build_cursor_filter-sort_keys,
}
use kube_graphql.Engine.Order.Keys.{sort_keys, build_order_by-sort_keys}
use kube_graphql.Engine.Projection.{
  sqlite_path, child_path, object_call, field_part, project, project_fields,
  build_projection_sqlite, build_projection_sql, build_projection,
}
use kube_graphql.Engine.Projection.Plain.{IsPlainJson, HasPlainProjection}
use kube_graphql.Engine.Root.{root_query, generate_root_only}
use kube_graphql.Engine.Root.Arguments.{BindsAll, generate_root_only-marks}
use kube_graphql.Engine.Root.Placeholders.{HasPlainNames}
use kube_graphql.Engine.Sql.{marks, IsPlain, Exceeds}
use kube_graphql.Engine.Validate.{
  sort_column, relation_count, count_relation_blocks, count_below, is_direction, check_order,
  check_page, check_relations, with_limit, with_max_depth, check_rest, validate,
}
use kube_graphql.Engine.Validate.Bounds.{
  IsAcceptable, IsValidated, validate_accepts_iff, validate-IsValidated,
}

-- A codec whose base64 is the identity, whose cursors all decode to one value, and whose JSON texts
-- all decode to one projection.
abbrev codec : Codec
codec = record {
  marshal_map = λ m. codes "{}";
  marshal_maps = λ ms. codes "[]";
  marshal_cursor = λ values. codes "cursor";
  unmarshal_cursor = λ bytes. some ((codes "name", codes "web") ∷ []);
  base64_encode = λ bytes. bytes;
  base64_decode = λ token. some token;
  unmarshal_any = λ raw. some (object (field (codes "spec") (boolean true) no_fields));
}

abbrev by_name_descending : List OrderSpec
by_name_descending = record { field = codes "name"; direction = codes "Desc" } ∷ []

abbrev page : PageSpec
page = record { first = pos 0; cursor = codes "token" }

abbrev filter : ObjectFilter
filter = record {
  group_kind = some (record { api_group = codes "apps"; kind = codes "deployments" });
  name = codes "web";
  namespace = [];
  labels = (codes "app", codes "web") ∷ [];
  label_expressions =
      record { key = codes "tier"; operator = exists; values = [] }
      ∷ record { key = codes "env"; operator = in_set; values = codes "a" ∷ codes "b" ∷ [] }
      ∷ [];
  conditions = record { kind = codes "Ready"; status = codes "True"; reason = [] } ∷ [];
  creation_timestamp = some (record { after = some (pos 5); before = none });
  id = [];
  json_path = codes "$.spec";
  categories = codes "all" ∷ [];
}

abbrev projected : ObjectsSpec
projected = shape true true true (some (codes "{}")) RelationMap.end

abbrev query : QuerySpec
query = record {
  cluster = some (record { name = codes "one"; labels = (codes "region", codes "eu") ∷ [] });
  filter = some (record { objects = filter ∷ filter ∷ [] });
  limit = pos 0;
  page = some page;
  order = by_name_descending;
  count = true;
  cursor = true;
  max_depth = pos 0;
  objects = projected;
}

accepted : (validate query).0 ≡ none
unfolding validate with_limit with_max_depth check_rest check_order sort_column is_direction
    check_page check_relations codes text_eq count_relation_blocks relation_count count_below
accepted = refl

validate_accepts_iff_example : ((validate query).0 ≡ none) ↔ IsAcceptable query
validate_accepts_iff_example = validate_accepts_iff query

validate-IsValidated_example : IsValidated (validate query).1
validate-IsValidated_example = validate-IsValidated query accepted

build_order_by-sort_keys_example :
    build_order_by query ≡ join (map order_part (sort_keys by_name_descending)) (codes ", ")
build_order_by-sort_keys_example = build_order_by-sort_keys query

decoded : decode_token codec page.cursor ≡ some ((codes "name", codes "web") ∷ [])
unfolding decode_token codes
decoded = refl

cursor_given : is_empty page.cursor ≡ false
unfolding codes
cursor_given = refl

build_cursor_filter-sort_keys_example : build_cursor_filter codec query ≡ (
  row_comparison (key_columns by_name_descending) (cursor_operator by_name_descending),
  key_values by_name_descending ((codes "name", codes "web") ∷ []),
)
build_cursor_filter-sort_keys_example =
    build_cursor_filter-sort_keys codec query page ((codes "name", codes "web") ∷ []) refl
      cursor_given decoded

alias-IsPlain : IsPlain (codes "obj")
unfolding marks codes
alias-IsPlain = refl

rt-IsPlain : IsPlain (codes "rt")
unfolding marks codes
rt-IsPlain = refl

plain_keys : HasPlainKeys filter
unfolding marks codes
plain_keys = record { labels = (refl, tt); expressions = (refl, (refl, tt)) }

build_object_filter_with_rt-Exceeds_example :
    Exceeds
      (build_object_filter_with_rt codec (codes "postgres") filter (codes "obj") (codes "rt"))
      (stray (codes "postgres") filter.label_expressions)
build_object_filter_with_rt-Exceeds_example =
    build_object_filter_with_rt-Exceeds codec (codes "postgres") filter (codes "obj") (codes "rt")
      alias-IsPlain rt-IsPlain plain_keys

plain_json : IsPlainJson (object (field (codes "spec") (boolean true) no_fields))
unfolding marks codes
plain_json = (refl, tt, tt)

plain_projection : HasPlainProjection codec projected
plain_projection = λ json e. subst IsPlainJson (some-injective _ _ e) plain_json

abbrev projection : Text
projection = codes "json_object('spec', json_extract(obj.object, '$.spec'))"

projection_built : build_projection codec (codes "sqlite") projected (codes "obj") ≡ some projection
unfolding build_projection build_projection_sql build_projection_sqlite project project_fields
    object_call field_part child_path sqlite_path concat codes is_postgres text_eq
projection_built = refl

plain_names : HasPlainNames codec query
unfolding marks codes
plain_names = record {
  cluster = λ f e.
      subst (λ (g : ClusterFilter). All (λ l. IsPlain l.0) g.labels) (some-injective _ _ e)
        (refl, tt);
  filter = λ f e.
      subst (λ (g : QueryFilter). All HasPlainKeys g.objects) (some-injective _ _ e)
        (plain_keys, (plain_keys, tt));
  projection = plain_projection;
}

of_projection :
    (c : Codec) (dialect : Text) (q : QuerySpec) {expr : Text}
    → build_projection c dialect q.objects (codes "obj") ≡ some expr
    → generate_root_only c dialect q ≡ some (root_query c dialect q expr)
unfolding generate_root_only
of_projection c dialect q e = rw (e, generate_root_only) refl

generated :
    generate_root_only codec (codes "sqlite") query
    ≡ some (root_query codec (codes "sqlite") query projection)
generated = of_projection codec (codes "sqlite") query projection_built

generate_root_only-marks_example :
    BindsAll (codes "sqlite") query (root_query codec (codes "sqlite") query projection)
generate_root_only-marks_example =
    generate_root_only-marks codec (codes "sqlite") query plain_names generated
