-- ===== src/Engine/Root/Arguments.antt =====
-- generateRootOnly: placeholders and arguments of both SQL texts.
use mathlib.Core.Option.{some-injective}
use mathlib.Core.Path.{subst}
use kube_graphql.Common.{
  Option-cases, length, length-append, Text, codes, ◌+◌, ◌≡◌, inl, inr, true, some, arith,
}
use kube_graphql.Api.{QuerySpec}
use kube_graphql.Engine.Codec.{Codec}
use kube_graphql.Engine.Order.{build_cursor_filter}
use kube_graphql.Engine.Order.Cursor.{build_cursor_filter-marks}
use kube_graphql.Engine.Projection.{build_projection}
use kube_graphql.Engine.Projection.Plain.{build_projection-marks}
use kube_graphql.Engine.Root.{
  GeneratedQuery, build_path_expr, cursor_args, root_query, generate_root_only,
}
use kube_graphql.Engine.Root.Conditions.{build_root_clauses, root_joins}
use kube_graphql.Engine.Root.Placeholders.{
  root_alias-IsPlain, HasPlainNames, stray_query, build_root_clauses-Exceeds,
}
use kube_graphql.Engine.Root.Texts.{
  format-marks, build_path_expr-marks, build_select_cols-marks, spaced-marks, where_text-marks,
  cursor_text-marks, offset_text-marks, build_order_by-marks, root_joins-marks, count_text-marks,
}
use kube_graphql.Engine.Sql.{marks, all_marks, IsPlain, marks-concat}

-- Both texts of a query have one placeholder for each argument, but for the operators `?`.
abbrev pub BindsAll : Text → QuerySpec → GeneratedQuery → Type 0
BindsAll dialect q g =
    (marks g.sql ≡ length g.args + stray_query dialect q.filter)
    × (marks g.count_sql ≡ length g.count_args + stray_query dialect q.filter)

root_query-BindsAll :
    (c : Codec) (dialect : Text) (q : QuerySpec) (projection : Text)
    → HasPlainNames c q
    → IsPlain projection
    → BindsAll dialect q (root_query c dialect q projection)
unfolding root_query
root_query-BindsAll c dialect q projection h hp =
    let alias = codes "obj" in
    let root = build_root_clauses c dialect q alias in
    let cursor = build_cursor_filter c q in
    let conditions = build_root_clauses-Exceeds c dialect alias root_alias-IsPlain q h in
    let joins = root_joins-marks q alias root_alias-IsPlain in
    (
      rw marks-concat (
          unfold all_marks marks codes in
          omega (
            arith,
            build_select_cols-marks alias projection (build_path_expr alias) root_alias-IsPlain hp
                (build_path_expr-marks alias root_alias-IsPlain) true,
            root_alias-IsPlain,
            spaced-marks (root_joins q alias),
            joins,
            where_text-marks root.clauses,
            cursor_text-marks root.clauses cursor (build_cursor_filter-marks c q),
            build_order_by-marks q,
            format-marks q.limit,
            offset_text-marks q.page,
            length-append root.args (cursor_args cursor),
            conditions,
          )),
      omega (
        arith,
        count_text-marks alias (root_joins q alias) root.clauses root_alias-IsPlain joins,
        conditions,
      ),
    )

-- A generated root query has one placeholder for each of its arguments, and so has its count
-- query, but for the operators `?` of Exists and DoesNotExist expressions in PostgreSQL. The label
-- keys and the projection's keys, which are written into the SQL, must hold no question mark.
pub generate_root_only-marks :
    (c : Codec) (dialect : Text) (q : QuerySpec) {g : GeneratedQuery}
    → HasPlainNames c q
    → generate_root_only c dialect q ≡ some g
    → BindsAll dialect q g
unfolding generate_root_only
generate_root_only-marks c dialect q h e =
    elim (Option-cases (build_projection c dialect q.objects (codes "obj"))) [
      | inl d ↦ cc d
      | inr (projection, d) ↦
          subst (BindsAll dialect q) (some-injective _ _ (rw (d, generate_root_only) at e)) (
            root_query-BindsAll c dialect q projection h (
              build_projection-marks c dialect q.objects (codes "obj") h.projection
                root_alias-IsPlain d))
    ]
