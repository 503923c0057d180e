-- ===== src/Engine/Refs/Placeholders.antt =====
-- The placeholders in the subqueries of internal/engine/refs.go.
use kube_graphql.Common.{
  if◌then◌else◌, Bool-cases, All, Text, codes, text_eq, is_empty, refl, inl, inr, arith,
}
use kube_graphql.Engine.Filter.Labels.{is_postgres}
use kube_graphql.Engine.Refs.{
  RefPath, builtin_ref_paths, nested_subquery, array_subquery, build_sqlite_ref_subquery,
  build_ref_name_subquery,
}
use kube_graphql.Engine.Sql.{marks, all_marks, IsPlain, marks-concat}

-- The paths of an entry hold no question mark.
pub record HasPlainPaths (p : RefPath) : Type 0 where
  pub pg : IsPlain p.pg_path
  pub array_path : IsPlain p.sqlite_array_path
  pub field_path : IsPlain p.sqlite_field_path

nested_subquery-IsPlain :
    (alias name outer outer_alias inner inner_alias : Text)
    → IsPlain alias
    → IsPlain name
    → IsPlain outer
    → IsPlain outer_alias
    → IsPlain inner
    → IsPlain inner_alias
    → IsPlain (nested_subquery alias name outer outer_alias inner inner_alias)
unfolding nested_subquery
nested_subquery-IsPlain alias name outer outer_alias inner inner_alias h₁ h₂ h₃ h₄ h₅ h₆ =
    rw marks-concat (unfold all_marks marks codes in omega (arith, h₁, h₂, h₃, h₄, h₅, h₆))

-- The same, with the facts on the constants in one tuple.
constants-IsPlain :
    (alias name outer outer_alias inner inner_alias : Text)
    → IsPlain alias
    → IsPlain name × IsPlain outer × IsPlain outer_alias × IsPlain inner × IsPlain inner_alias
    → IsPlain (nested_subquery alias name outer outer_alias inner inner_alias)
constants-IsPlain alias name outer outer_alias inner inner_alias ha h =
    nested_subquery-IsPlain alias name outer outer_alias inner inner_alias ha h.0 h.1 h.2 h.3 h.4

choose : (s t a b : Text) → IsPlain a → IsPlain b → IsPlain (if text_eq s t then a else b)
choose s t a b ha hb = elim (Bool-cases (text_eq s t)) [ inl e ↦ rw e ha | inr e ↦ rw e hb ]

array_subquery-IsPlain :
    (p : RefPath) (alias : Text)
    → IsPlain alias
    → HasPlainPaths p
    → IsPlain (array_subquery p alias)
unfolding array_subquery marks codes
array_subquery-IsPlain p alias ha h =
    choose _ _ _ _
      (constants-IsPlain alias (codes "$.valueFrom.secretKeyRef.name") (codes "$.spec.containers")
        (codes "cont") (codes "$.env") (codes "env") ha (refl, refl, refl, refl, refl))
      (choose _ _ _ _
        (constants-IsPlain alias (codes "$.valueFrom.configMapKeyRef.name")
          (codes "$.spec.containers") (codes "cont") (codes "$.env") (codes "env") ha
          (refl, refl, refl, refl, refl))
        (choose _ _ _ _
          (constants-IsPlain alias (codes "$.secretRef.name") (codes "$.spec.containers")
            (codes "cont") (codes "$.envFrom") (codes "ef") ha (refl, refl, refl, refl, refl))
          (choose _ _ _ _
            (constants-IsPlain alias (codes "$.configMapRef.name") (codes "$.spec.containers")
              (codes "cont") (codes "$.envFrom") (codes "ef") ha (refl, refl, refl, refl, refl))
            (choose _ _ _ _
              (constants-IsPlain alias (codes "$.backend.service.name") (codes "$.spec.rules")
                (codes "r") (codes "$.http.paths") (codes "p") ha (refl, refl, refl, refl, refl))
              (rw marks-concat
                (unfold all_marks marks codes in omega (arith, ha, h.array_path, h.field_path)))))))

build_sqlite_ref_subquery-IsPlain :
    (p : RefPath) (alias : Text)
    → IsPlain alias
    → HasPlainPaths p
    → IsPlain (build_sqlite_ref_subquery p alias)
unfolding build_sqlite_ref_subquery
build_sqlite_ref_subquery-IsPlain p alias ha h = elim (Bool-cases (is_empty p.sqlite_array_path)) [
  | inl e ↦ rw e (rw marks-concat (unfold all_marks marks codes in omega (arith, ha, h.field_path)))
  | inr e ↦ rw e (array_subquery-IsPlain p alias ha h)
]

pub build_ref_name_subquery-IsPlain :
    (p : RefPath) (alias dialect : Text)
    → IsPlain alias
    → HasPlainPaths p
    → IsPlain (build_ref_name_subquery p alias dialect)
unfolding build_ref_name_subquery
build_ref_name_subquery-IsPlain p alias dialect ha h = elim (Bool-cases (is_postgres dialect)) [
  | inl e ↦ rw e (rw marks-concat (unfold all_marks marks codes in omega (arith, ha, h.pg)))
  | inr e ↦ rw e (build_sqlite_ref_subquery-IsPlain p alias ha h)
]

pub builtin_ref_paths-plain : All HasPlainPaths builtin_ref_paths
unfolding builtin_ref_paths marks codes
builtin_ref_paths-plain = (
  record { pg = refl; array_path = refl; field_path = refl },
  (
    record { pg = refl; array_path = refl; field_path = refl },
    (
      record { pg = refl; array_path = refl; field_path = refl },
      (
        record { pg = refl; array_path = refl; field_path = refl },
        (
          record { pg = refl; array_path = refl; field_path = refl },
          (
            record { pg = refl; array_path = refl; field_path = refl },
            (
              record { pg = refl; array_path = refl; field_path = refl },
              (
                record { pg = refl; array_path = refl; field_path = refl },
                (
                  record { pg = refl; array_path = refl; field_path = refl },
                  (
                    record { pg = refl; array_path = refl; field_path = refl },
                    (
                      record { pg = refl; array_path = refl; field_path = refl },
                      (
                        record { pg = refl; array_path = refl; field_path = refl },
                        (
                          record { pg = refl; array_path = refl; field_path = refl },
                          (
                            record { pg = refl; array_path = refl; field_path = refl },
                            (record { pg = refl; array_path = refl; field_path = refl }, tt),
                          ),
                        ),
                      ),
                    ),
                  ),
                ),
              ),
            ),
          ),
        ),
      ),
    ),
  ),
)
