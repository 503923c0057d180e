-- ===== src/Engine/Execute/Bound.antt =====
-- Execute: the statements that it sends to the database.
use kube_graphql.Common.{
  ◌==◌, if◌then◌else◌, ==_iff, Bool-cases, Option-cases, length, ℤ, pos, ltb_ℤ, leb_ℤ, Text, ◌≡◌,
  refl, inl, inr, none, List, arith,
}
use kube_graphql.Api.{Time, QuerySpec}
use kube_graphql.Engine.Codec.{Codec}
use kube_graphql.Engine.Execute.{Database, answer, answer_generated, execute}
use kube_graphql.Engine.Relational.{Generated, generated, generator_error, out_of_steps}
use kube_graphql.Engine.Relational.Arguments.{HasPlainTree, generate-marks}
use kube_graphql.Engine.Root.{GeneratedQuery}
use kube_graphql.Engine.Root.Arguments.{BindsAll}
use kube_graphql.Engine.Root.Placeholders.{stray_query}
use kube_graphql.Engine.Sql.{Arg, marks}
use kube_graphql.Engine.Validate.{
  default_limit, max_limit, default_max_depth, hard_max_depth, with_limit, with_max_depth, validate,
}

-- The database that refuses a statement whose placeholders are not as many as its arguments.
unfoldable pub strict : Database → Database
strict db = record {
  rows = λ sql args. if marks sql == length args then db.rows sql args else none;
  count = λ sql args. if marks sql == length args then db.count sql args else none;
}

module _ (db : Database) (sql : Text) (args : List Arg) (e : marks sql ≡ length args) where
  strict-rows : (strict db).rows sql args ≡ db.rows sql args
  unfolding strict
  strict-rows = rw ((==_iff (marks sql) (length args)).1 e) refl

  strict-count : (strict db).count sql args ≡ db.count sql args
  unfolding strict
  strict-count = rw ((==_iff (marks sql) (length args)).1 e) refl

module _ (c : Codec) (dialect : Text) (format_time : Time → Text) (db : Database) where
  answer-strict :
      (q : QuerySpec) (g : GeneratedQuery)
      → marks g.sql ≡ length g.args
      → marks g.count_sql ≡ length g.count_args
      → answer c format_time q (strict db) g ≡ answer c format_time q db g
  unfolding answer
  answer-strict q g e f =
      cc (strict-rows db g.sql g.args e, strict-count db g.count_sql g.count_args f)

  generated-strict :
      (q : QuerySpec) (r : Generated)
      → ((g : GeneratedQuery) → r ≡ generated g → BindsAll dialect q g)
      → stray_query dialect q.filter ≡ 0
      → answer_generated c format_time q (strict db) r ≡ answer_generated c format_time q db r
  unfolding answer_generated
  generated-strict q (generated g) h k =
      let (sql, count) = h g refl in
      answer-strict q g (omega (arith, sql, k)) (omega (arith, count, k))
  generated-strict q generator_error h k = refl
  generated-strict q out_of_steps h k = refl

-- The names and keys of a query hold no question mark, and in PostgreSQL it has no expression with
-- Exists or DoesNotExist.
pub record IsPlainQuery (c : Codec) (dialect : Text) (q : QuerySpec) : Type 0 where
  pub tree : HasPlainTree c dialect q
  pub operators : stray_query dialect q.filter ≡ 0

module _ (c : Codec) (dialect : Text) where
  -- Validation changes neither the filters nor the objects of a query.
  same_parts :
      (q : QuerySpec) (limit max_depth : ℤ)
      → IsPlainQuery c dialect q
      → IsPlainQuery c dialect (record q { limit = limit; max_depth = max_depth })
  same_parts q limit max_depth h = record {
    tree = record {
      names = record {
        cluster = h.tree.names.cluster;
        filter = h.tree.names.filter;
        projection = h.tree.names.projection;
      };
      relations = h.tree.relations;
    };
    operators = h.operators;
  }

  with_limit-IsPlainQuery :
      (q : QuerySpec) → IsPlainQuery c dialect q → IsPlainQuery c dialect (with_limit q)
  unfolding with_limit
  with_limit-IsPlainQuery q h = elim (Bool-cases (leb_ℤ q.limit (pos 0))) [
    | inl e ↦ rw e (same_parts q default_limit q.max_depth h)
    | inr e ↦ rw e h
  ]

  with_max_depth-IsPlainQuery :
      (q : QuerySpec) → IsPlainQuery c dialect q → IsPlainQuery c dialect (with_max_depth q)
  unfolding with_max_depth
  with_max_depth-IsPlainQuery q h = elim (Bool-cases (leb_ℤ q.max_depth (pos 0))) [
    | inl e ↦ rw e (same_parts q q.limit default_max_depth h)
    | inr e ↦ rw e h
  ]

  validate-IsPlainQuery :
      (q : QuerySpec) → IsPlainQuery c dialect q → IsPlainQuery c dialect (validate q).1
  unfolding validate
  validate-IsPlainQuery q h =
      let h₁ = with_limit-IsPlainQuery q h in
      let h₂ = with_max_depth-IsPlainQuery (with_limit q) h₁ in
      elim (Bool-cases (ltb_ℤ max_limit (with_limit q).limit)) [
        | inl e ↦ rw (e, validate) h₁
        | inr e ↦
            elim (Bool-cases (ltb_ℤ hard_max_depth (with_max_depth (with_limit q)).max_depth)) [
              | inl d ↦ rw (e, d, validate) h₂
              | inr d ↦ rw (e, d, validate) h₂
            ]
      ]

-- A query is answered the same by a database that refuses every statement whose placeholders are
-- not as many as its arguments: Execute sends no other. The names and keys that are written into
-- the SQL must hold no question mark, and in PostgreSQL no filter may have an Exists or a
-- DoesNotExist expression.
pub execute-strict :
    (c : Codec) (dialect : Text) (format_time : Time → Text) (db : Database) (q : QuerySpec)
    → IsPlainQuery c dialect q
    → execute c dialect format_time (strict db) q ≡ execute c dialect format_time db q
unfolding execute
execute-strict c dialect format_time db q h =
    let plain = validate-IsPlainQuery c dialect q h in
    elim (Option-cases (validate q).0) [
      | inr (e, invalid) ↦ rw (invalid, execute) refl
      | inl valid ↦
          rw (valid, execute)
            (generated-strict c dialect format_time db (validate q).1 _
              (λ g e. generate-marks c dialect (validate q).1 g plain.tree e) plain.operators)
    ]
