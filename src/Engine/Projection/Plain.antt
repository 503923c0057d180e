-- ===== src/Engine/Projection/Plain.antt =====
-- The placeholders in the expressions of internal/engine/projection.go.
use mathlib.Core.Option.{some-injective}
use mathlib.Core.Path.{subst}
use kube_graphql.Common.{
  ◌==◌, Bool-cases, Option-cases, Text, codes, cons_head, split, ℕ, ◌+◌, ◌≡◌, refl, inl, inr, true,
  false, none, some, List, [], ◌∷◌, ◌++◌, arith,
}
use kube_graphql.Api.{ObjectsSpec, absent, shape}
use kube_graphql.Engine.Codec.{Json, boolean, object, scalar, JsonFields, no_fields, field, Codec}
use kube_graphql.Engine.Filter.Labels.{is_postgres}
use kube_graphql.Engine.Projection.{
  arrows, postgres_path, sqlite_path, child_path, object_call, field_part, project, project_fields,
  build_projection_sqlite, build_projection_postgres, build_projection_sql, build_projection,
}
use kube_graphql.Engine.Sql.{marks, all_marks, IsPlain, marks-append, marks-join, marks-concat}

-- No key of a projection holds a question mark.
abbrev mutual
  pub HasPlainFields : JsonFields → Type 0
  HasPlainFields no_fields = Unit
  HasPlainFields (field key value fields) = IsPlain key × IsPlainJson value × HasPlainFields fields

  pub IsPlainJson : Json → Type 0
  IsPlainJson (boolean b) = Unit
  IsPlainJson (object fields) = HasPlainFields fields
  IsPlainJson scalar = Unit

no-marks : marks [] ≡ 0
unfolding marks
no-marks = refl

null-marks : IsPlain (codes "NULL")
unfolding marks codes
null-marks = refl

arrow-marks :
    (p rest : Text) → marks (codes "->'" ++ (p ++ (codes "'" ++ rest))) ≡ marks p + marks rest
arrow-marks p rest = simp marks-append (unfold marks codes in omega arith)

arrows-marks : (ps : List Text) → marks (arrows ps) ≡ all_marks ps
unfolding arrows all_marks
arrows-marks [] = no-marks
arrows-marks (p ∷ ps) = omega (arith, arrow-marks p (arrows ps), arrows-marks ps)

object-marks : (alias : Text) → IsPlain alias → IsPlain (alias ++ codes ".object")
object-marks alias ha = simp marks-append (unfold marks codes in omega arith)

cons_head-marks :
    (c : ℕ) (ps : List Text) → all_marks (cons_head c ps) ≡ marks (c ∷ []) + all_marks ps
unfolding all_marks marks
cons_head-marks c [] = omega arith
cons_head-marks c (p ∷ ps) = omega arith

split-marks : (s : Text) → all_marks (split s b'.') ≡ marks s
unfolding split all_marks marks
split-marks [] = refl
split-marks (c ∷ s) = elim (Bool-cases (c == b'.')) [
  | inl e ↦ rw e (ground (arith, split-marks s))
  | inr e ↦ rw e (omega (arith, split-marks s, cons_head-marks c (split s b'.')))
]

postgres_path-marks :
    (alias path : Text) → IsPlain alias → IsPlain path → IsPlain (postgres_path alias path)
unfolding postgres_path
postgres_path-marks alias path ha hp =
    simp marks-append
      (unfold marks codes in omega (arith, arrows-marks (split path b'.'), split-marks path))

sqlite_path-marks :
    (alias path : Text) → IsPlain alias → IsPlain path → IsPlain (sqlite_path alias path)
unfolding sqlite_path
sqlite_path-marks alias path ha hp = rw marks-concat (unfold all_marks marks codes in omega arith)

child_path-marks : (path key : Text) → IsPlain path → IsPlain key → IsPlain (child_path path key)
unfolding child_path
child_path-marks [] key hp hk = hk
child_path-marks (p ∷ path) key hp hk = simp (marks-append, hp, hk) (unfold marks codes in refl)

object_call-marks :
    (function : Text) (parts : List Text)
    → IsPlain function
    → all_marks parts ≡ 0
    → IsPlain (object_call function parts)
unfolding object_call
object_call-marks function [] hf hp = unfold marks codes in refl
object_call-marks function (p ∷ ps) hf hp = rw marks-concat (
    unfold all_marks marks codes in
    omega (arith, marks-join (p ∷ ps) (codes ", ") (unfold marks codes in refl)))

field_part-marks : (key expr : Text) → IsPlain key → IsPlain expr → IsPlain (field_part key expr)
unfolding field_part
field_part-marks key expr hk he = rw marks-concat (unfold all_marks marks codes in omega arith)

module _ (leaf : Text → Text → Text) (function alias : Text)
    (hleaf : (path : Text) → IsPlain path → IsPlain (leaf alias path)) (hf : IsPlain function) where
  mutual
    unfolding project all_marks

    project-marks :
        (json : Json) (path : Text)
        → IsPlainJson json
        → IsPlain path
        → IsPlain (project leaf function alias json path)
    project-marks (boolean true) path h hp = hleaf path hp
    project-marks (boolean false) path h hp = null-marks
    project-marks (object fields) path h hp =
        object_call-marks function _ hf (project_fields-marks fields path h hp)
    project-marks scalar path h hp = hleaf path hp

    project_fields-marks :
        (fields : JsonFields) (path : Text)
        → HasPlainFields fields
        → IsPlain path
        → all_marks (project_fields leaf function alias fields path) ≡ 0
    project_fields-marks no_fields path h hp = refl
    project_fields-marks (field key value fields) path h hp =
        let below = child_path path key in
        omega (
          arith,
          field_part-marks key (project leaf function alias value below) h.0
              (project-marks value below h.1 (child_path-marks path key hp h.0)),
          project_fields-marks fields path h.2 hp,
        )

build_projection_sqlite-marks :
    (json : Json) (alias : Text)
    → IsPlainJson json
    → IsPlain alias
    → IsPlain (build_projection_sqlite json alias [])
unfolding build_projection_sqlite
build_projection_sqlite-marks json alias h ha =
    project-marks sqlite_path (codes "json_object") alias (λ path. sqlite_path-marks alias path ha)
      (unfold marks codes in refl) json [] h no-marks

build_projection_postgres-marks :
    (json : Json) (alias : Text)
    → IsPlainJson json
    → IsPlain alias
    → IsPlain (build_projection_postgres json alias [])
unfolding build_projection_postgres
build_projection_postgres-marks json alias h ha =
    project-marks postgres_path (codes "jsonb_build_object") alias
      (λ path. postgres_path-marks alias path ha) (unfold marks codes in refl) json [] h no-marks

-- The raw projection of an ObjectsSpec decodes to one whose keys hold no question mark.
abbrev pub HasPlainProjection : Codec → ObjectsSpec → Type 0
HasPlainProjection c absent = Unit
HasPlainProjection c (shape id cluster path none relations) = Unit
HasPlainProjection c (shape id cluster path (some raw) relations) =
    (json : Json) → c.unmarshal_any raw ≡ some json → IsPlainJson json

build_projection_sql-marks :
    (c : Codec) (raw dialect alias : Text) {expr : Text}
    → ((json : Json) → c.unmarshal_any raw ≡ some json → IsPlainJson json)
    → IsPlain alias
    → build_projection_sql c raw dialect alias ≡ some expr
    → IsPlain expr
unfolding build_projection_sql
build_projection_sql-marks c [] dialect alias h ha e =
    subst IsPlain (some-injective _ _ e) (object-marks alias ha)
build_projection_sql-marks c (b ∷ raw) dialect alias h ha e =
    elim (Option-cases (c.unmarshal_any (b ∷ raw))) [
      | inl d ↦ cc d
      | inr (json, d) ↦ elim (Bool-cases (is_postgres dialect)) [
        | inl p ↦
            subst IsPlain (some-injective _ _ (rw (d, p, build_projection_sql) at e))
              (build_projection_postgres-marks json alias (h json d) ha)
        | inr s ↦
            subst IsPlain (some-injective _ _ (rw (d, s, build_projection_sql) at e))
              (build_projection_sqlite-marks json alias (h json d) ha)
      ]
    ]

-- A projection that can be built from plain keys has no placeholder.
pub build_projection-marks :
    (c : Codec) (dialect : Text) (o : ObjectsSpec) (alias : Text) {expr : Text}
    → HasPlainProjection c o
    → IsPlain alias
    → build_projection c dialect o alias ≡ some expr
    → IsPlain expr
unfolding build_projection
build_projection-marks c dialect absent alias h ha e =
    subst IsPlain (some-injective _ _ e) (object-marks alias ha)
build_projection-marks c dialect (shape id cluster path none relations) alias h ha e =
    subst IsPlain (some-injective _ _ e) (object-marks alias ha)
build_projection-marks c dialect (shape id cluster path (some []) relations) alias h ha e =
    subst IsPlain (some-injective _ _ e) (object-marks alias ha)
build_projection-marks c dialect (shape id cluster path (some (b ∷ raw)) relations) alias h ha e =
    build_projection_sql-marks c (b ∷ raw) dialect alias h ha e
