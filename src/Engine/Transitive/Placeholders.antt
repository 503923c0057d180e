-- ===== src/Engine/Transitive/Placeholders.antt =====
-- The texts of buildTransitiveCTE: their placeholders.
use kube_graphql.Common.{
  Bool-cases, OrElse, All, ℤ, pos, ltb_ℤ, Text, codes, text_eq, decimal, ℕ, suc, ◌≡◌, refl, inl,
  inr, List, [], ◌∷◌, ◌++◌, arith,
}
use kube_graphql.Engine.Filter.Labels.{is_postgres}
use kube_graphql.Engine.Relations.{rel_owners, rel_descendants, rel_linked}
use kube_graphql.Engine.Root.Texts.{digits-marks, format-marks, build_path_expr-marks}
use kube_graphql.Engine.Sql.{marks, all_marks, IsPlain, marks-append, marks-concat, sprintf-IsPlain}
use kube_graphql.Engine.Transitive.{
  Ancestor, TransitiveRequest, condition_with, descendant_join_cond, owner_join_cond,
  linked_join_cond, join_cond, path_segment, path_through, ancestor_joins, level_columns, limited,
}

pub decimal-marks : (n : ℕ) → IsPlain (decimal n)
unfolding decimal
decimal-marks n = digits-marks (suc n) n [] (unfold marks in refl)

pub condition_with-IsPlain :
    (dialect postgres sqlite : Text) (args : List Text)
    → IsPlain postgres
    → IsPlain sqlite
    → All IsPlain args
    → IsPlain (condition_with dialect postgres sqlite args)
condition_with-IsPlain dialect postgres sqlite args hp hs ha =
    elim (Bool-cases (is_postgres dialect)) [
      | inl e ↦ rw e (sprintf-IsPlain postgres args hp ha)
      | inr e ↦ rw e (sprintf-IsPlain sqlite args hs ha)
    ]

-- A condition on two aliases that adds no placeholder.
abbrev pub IsPlainCond : (Text → Text → Text → Text) → Type 0
IsPlainCond cond =
    (child parent dialect : Text)
    → IsPlain child
    → IsPlain parent
    → IsPlain (cond child parent dialect)

descendant-IsPlainCond : IsPlainCond descendant_join_cond
unfolding descendant_join_cond
descendant-IsPlainCond child parent dialect hc hp =
    condition_with-IsPlain dialect _ _ _ (unfold marks codes in refl) (unfold marks codes in refl)
      (hc, (hp, tt))

owner-IsPlainCond : IsPlainCond owner_join_cond
unfolding owner_join_cond
owner-IsPlainCond child parent dialect hc hp =
    condition_with-IsPlain dialect _ _ _ (unfold marks codes in refl) (unfold marks codes in refl)
      (hc, (hp, tt))

linked-IsPlainCond : IsPlainCond linked_join_cond
unfolding linked_join_cond
linked-IsPlainCond child parent dialect hc hp =
    condition_with-IsPlain dialect _ _ _ (unfold marks codes in refl) (unfold marks codes in refl)
      (hp, (hc, (hp, (hc, (hc, (hc, (hc, tt)))))))

pub join_cond-IsPlainCond : (base : Text) → OrElse Unit IsPlainCond (join_cond base)
unfolding join_cond
join_cond-IsPlainCond base = elim (Bool-cases (text_eq base rel_descendants)) [
  | inl d ↦ rw d descendant-IsPlainCond
  | inr d ↦ elim (Bool-cases (text_eq base rel_owners)) [
    | inl o ↦ rw (d, o) owner-IsPlainCond
    | inr o ↦ elim (Bool-cases (text_eq base rel_linked)) [
      | inl l ↦ rw (d, o, l) linked-IsPlainCond
      | inr l ↦ rw (d, o, l) tt
    ]
  ]
]

pub path_segment-marks : (alias : Text) → IsPlain alias → IsPlain (path_segment alias)
unfolding path_segment
path_segment-marks alias h =
    simp marks-append (unfold marks codes in omega (arith, build_path_expr-marks alias h))

-- The aliases and the joins of ancestors hold no placeholder.
abbrev pub ArePlain : List Ancestor → Type 0
ArePlain = All (λ a. IsPlain a.alias × IsPlain a.join_clause)

pub path_through-marks :
    (path : Text) (as_of : List Ancestor)
    → IsPlain path
    → ArePlain as_of
    → IsPlain (path_through path as_of)
unfolding path_through
path_through-marks path [] hp h = hp
path_through-marks path (a ∷ rest) hp h =
    path_through-marks (path ++ path_segment a.alias) rest
      (omega (arith, marks-append path (path_segment a.alias), path_segment-marks a.alias h.0.0))
      h.1

pub ancestor_joins-marks :
    (as_of : List Ancestor) → ArePlain as_of → all_marks (ancestor_joins as_of) ≡ 0
unfolding ancestor_joins all_marks
ancestor_joins-marks [] h = refl
ancestor_joins-marks (a ∷ rest) h = omega (arith, ancestor_joins-marks rest h.1)

pub level_columns-marks :
    (level : ℕ) (name : Text) → IsPlain name → IsPlain (level_columns level name)
unfolding level_columns
level_columns-marks level name h =
    rw marks-concat (unfold all_marks marks codes in omega (arith, decimal-marks level))

pub limited-marks : (limit : ℤ) (sql : Text) → marks (limited limit sql) ≡ marks sql
unfolding limited
limited-marks limit sql = elim (Bool-cases (ltb_ℤ (pos 0) limit)) [
  | inl e ↦
      rw (e, limited, marks-concat)
        (unfold all_marks marks codes in omega (arith, format-marks limit))
  | inr e ↦ rw (e, limited) refl
]

-- What buildTransitiveCTE writes into the SQL holds no placeholder.
pub record HasPlainTexts (r : TransitiveRequest) : Type 0 where
  pub cte_name : IsPlain r.cte_name
  pub root_alias : IsPlain r.root_alias
  pub root_path : IsPlain r.root_path
  pub parent_alias : IsPlain r.parent_alias
  pub ancestors : ArePlain r.ancestors
  pub relation_name : IsPlain r.relation_name
