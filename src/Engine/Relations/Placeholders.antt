-- ===== src/Engine/Relations/Placeholders.antt =====
-- Placeholders and arguments of the joins in internal/engine/relations.go.
use kube_graphql.Common.{
  ◌==◌, if◌then◌else◌, Bool-cases, Option-cases, length, All, Text, codes, text_eq, join, ℕ, ◌≡◌,
  refl, ◌∙◌, inl, inr, List, [], ◌∷◌, ◌++◌, map, arith,
}
use kube_graphql.Engine.Filter.Labels.{is_postgres}
use kube_graphql.Engine.Refs.{RefPath, builtin_ref_paths, build_ref_name_subquery}
use kube_graphql.Engine.Refs.Placeholders.{
  HasPlainPaths, build_ref_name_subquery-IsPlain, builtin_ref_paths-plain,
}
use kube_graphql.Engine.Relations.{
  rel_owners, rel_descendants, rel_references, rel_selects, rel_selected_by, rel_events, rel_linked,
  rel_grouped, trim_suffix, trim_prefix, RelationContext, RelationJoin, empty_join, join_with,
  build_descendant_join, build_owner_join, target_kinds, is_targeted, name_subqueries,
  kind_placeholders, target_clauses, join_names, build_reference_join,
}
use kube_graphql.Engine.Relations.Joins.{
  build_selects_join, build_selected_by_join, build_events_join, build_linked_join,
  build_grouped_join, build_relation_join,
}
use kube_graphql.Engine.Sql.{
  text, marks, all_marks, IsPlain, marks-append, marks-join, Exceeds, sprintf-IsPlain,
}

-- A join without placeholders, whose conditions have one for each argument.
pub record BindsJoin (j : RelationJoin) : Type 0 where
  pub plain : IsPlain j.join_clause
  pub extra : Exceeds j.extra 0

two_formats-BindsJoin :
    (ctx : RelationContext) (postgres sqlite : Text) (postgres_args sqlite_args : List Text)
    → IsPlain postgres
    → IsPlain sqlite
    → All IsPlain postgres_args
    → All IsPlain sqlite_args
    → BindsJoin (join_with ctx postgres sqlite postgres_args sqlite_args)
unfolding all_marks
two_formats-BindsJoin ctx postgres sqlite xs ys hp hs hx hy =
    elim (Bool-cases (is_postgres ctx.dialect)) [
      | inl e ↦ record { plain = rw e (sprintf-IsPlain postgres xs hp hx); extra = refl }
      | inr e ↦ record { plain = rw e (sprintf-IsPlain sqlite ys hs hy); extra = refl }
    ]

kind_placeholders-marks : (ks : List Text) → all_marks (kind_placeholders ks) ≡ length (map text ks)
unfolding kind_placeholders all_marks marks codes
kind_placeholders-marks [] = refl
kind_placeholders-marks (k ∷ ks) = omega (arith, kind_placeholders-marks ks)

all_marks_of_plain : (ps : List Text) → All IsPlain ps → all_marks ps ≡ 0
unfolding all_marks
all_marks_of_plain [] h = refl
all_marks_of_plain (p ∷ ps) h = omega (arith, h.0, all_marks_of_plain ps h.1)

target_clauses-Exceeds :
    (alias : Text) (ks : List Text) → IsPlain alias → Exceeds (target_clauses alias ks) 0
unfolding target_clauses all_marks
target_clauses-Exceeds alias [] h = refl
target_clauses-Exceeds alias (k ∷ ks) h =
    let holes = join (kind_placeholders (k ∷ ks)) (codes ",") in
    let held : marks holes ≡ length (map text (k ∷ ks)) =
      marks-join (kind_placeholders (k ∷ ks)) (codes ",") (unfold marks codes in refl)
      ∙ kind_placeholders-marks (k ∷ ks) in
    let ends : marks (codes ")") ≡ 0 = unfold marks codes in refl in
    let starts : marks (codes ".kind IN (") ≡ 0 = unfold marks codes in refl in
    omega (
      arith,
      marks-append alias (codes ".kind IN (" ++ (holes ++ codes ")")),
      marks-append (codes ".kind IN (") (holes ++ codes ")"),
      marks-append holes (codes ")"),
      held,
      ends,
      starts,
      h,
    )

trim_prefix-IsPlain : (c : ℕ) (s : Text) → IsPlain s → IsPlain (trim_prefix c s)
unfolding trim_prefix marks
trim_prefix-IsPlain c [] h = h
trim_prefix-IsPlain c (b ∷ s) h = elim (Bool-cases (b == c)) [
  | inl e ↦ rw e (omega (arith, h))
  | inr e ↦ rw e h
]

pub trim_suffix-IsPlain : (c : ℕ) (s : Text) → IsPlain s → IsPlain (trim_suffix c s)
unfolding trim_suffix marks
trim_suffix-IsPlain c [] h = h
trim_suffix-IsPlain c (b ∷ []) h = elim (Bool-cases (b == c)) [ inl e ↦ rw e refl | inr e ↦ rw e h ]
trim_suffix-IsPlain c (b ∷ d ∷ s) h =
    let rest = trim_suffix-IsPlain c (d ∷ s) (omega (arith, h)) in omega (arith, h, rest)

-- A property of both branches of a test on a text.
choose :
    (s t : Text) (a b : RelationJoin)
    → BindsJoin a
    → BindsJoin b
    → BindsJoin (if text_eq s t then a else b)
choose s t a b ha hb = elim (Bool-cases (text_eq s t)) [ inl e ↦ rw e ha | inr e ↦ rw e hb ]

module _ (ctx : RelationContext) (hc : IsPlain ctx.child_alias)
    (hp : IsPlain ctx.parent_alias) where
  empty-BindsJoin : BindsJoin (empty_join ctx)
  unfolding all_marks
  empty-BindsJoin = record {
    plain = sprintf-IsPlain _ _ (unfold marks codes in refl) (hc, tt);
    extra = refl;
  }

  join_names-BindsJoin : (qs : List Text) → All IsPlain qs → BindsJoin (join_names ctx qs)
  unfolding join_names
  join_names-BindsJoin [] h = empty-BindsJoin
  join_names-BindsJoin (q ∷ qs) h = record {
    plain = sprintf-IsPlain _ _ (unfold marks codes in refl) (
      hc,
      (
        hc,
        (
          hp,
          (
            hc,
            (
              hp,
              (
                hc,
                (
                  marks-join (q ∷ qs) (codes " UNION ALL ") (unfold marks codes in refl)
                      ∙ all_marks_of_plain (q ∷ qs) h,
                  tt,
                ),
              ),
            ),
          ),
        ),
      ),
    );
    extra = target_clauses-Exceeds ctx.child_alias (target_kinds ctx.filters) hc;
  }

  descendant-BindsJoin : BindsJoin (build_descendant_join ctx)
  unfolding build_descendant_join
  descendant-BindsJoin =
      two_formats-BindsJoin ctx _ _ _ _ (unfold marks codes in refl) (unfold marks codes in refl)
        (hc, (hc, (hp, (hc, (hp, tt))))) (hc, (hc, (hp, (hc, (hp, tt)))))

  owner-BindsJoin : BindsJoin (build_owner_join ctx)
  unfolding build_owner_join
  owner-BindsJoin =
      two_formats-BindsJoin ctx _ _ _ _ (unfold marks codes in refl) (unfold marks codes in refl)
        (hc, (hc, (hp, (hc, (hp, tt))))) (hc, (hc, (hp, (hc, (hp, tt)))))

  selects-BindsJoin : BindsJoin (build_selects_join ctx)
  unfolding build_selects_join
  selects-BindsJoin =
      two_formats-BindsJoin ctx _ _ _ _ (unfold marks codes in refl) (unfold marks codes in refl)
        (hc, (hc, (hp, (hc, (hp, (hc, (hp, (hp, (hc, (hp, tt))))))))))
        (hc, (hc, (hp, (hc, (hp, (hp, (hc, (hp, (hp, (hc, (hc, tt)))))))))))

  selected_by-BindsJoin : BindsJoin (build_selected_by_join ctx)
  unfolding build_selected_by_join
  selected_by-BindsJoin =
      two_formats-BindsJoin ctx _ _ _ _ (unfold marks codes in refl) (unfold marks codes in refl)
        (hc, (hc, (hp, (hc, (hp, (hp, (hc, (hc, (hc, (hp, tt))))))))))
        (hc, (hc, (hp, (hc, (hp, (hc, (hc, (hp, (hc, (hp, (hp, tt)))))))))))

  events-BindsJoin : BindsJoin (build_events_join ctx)
  unfolding build_events_join
  events-BindsJoin =
      two_formats-BindsJoin ctx _ _ _ _ (unfold marks codes in refl) (unfold marks codes in refl)
        (hc, (hc, (hp, (hc, (hc, (hp, tt)))))) (hc, (hc, (hp, (hc, (hc, (hp, tt))))))

  linked-BindsJoin : BindsJoin (build_linked_join ctx)
  unfolding build_linked_join
  linked-BindsJoin =
      two_formats-BindsJoin ctx _ _ _ _ (unfold marks codes in refl) (unfold marks codes in refl)
        (hp, (hc, (hc, (hp, (hc, (hc, (hc, (hc, tt))))))))
        (hp, (hc, (hc, (hp, (hc, (hc, (hc, (hc, tt))))))))

  grouped-BindsJoin : BindsJoin (build_grouped_join ctx)
  unfolding build_grouped_join
  grouped-BindsJoin =
      two_formats-BindsJoin ctx _ _ _ _ (unfold marks codes in refl) (unfold marks codes in refl)
        (hc, (hc, (hp, (hc, (hp, (hp, tt)))))) (hc, (hc, (hp, (hc, (hp, (hp, tt))))))

  name_subqueries-IsPlain :
      (paths : List RefPath) → All HasPlainPaths paths → All IsPlain (name_subqueries ctx paths)
  unfolding name_subqueries
  name_subqueries-IsPlain [] h = tt
  name_subqueries-IsPlain (path ∷ paths) h =
      let query = build_ref_name_subquery path ctx.parent_alias ctx.dialect in
      let plain = build_ref_name_subquery-IsPlain path ctx.parent_alias ctx.dialect hp h.0 in
      let rest = name_subqueries-IsPlain paths h.1 in
      elim (Bool-cases (is_targeted (target_kinds ctx.filters) path)) [
        | inl e ↦ rw e (trim_suffix-IsPlain b')' _ (trim_prefix-IsPlain b'(' query plain), rest)
        | inr e ↦ rw e rest
      ]

  references-BindsJoin : BindsJoin (build_reference_join ctx)
  unfolding build_reference_join
  references-BindsJoin = elim (Option-cases ctx.ref_registry) [
    | inl e ↦ rw (e, build_reference_join) empty-BindsJoin
    | inr (r, e) ↦
        rw (e, build_reference_join)
          (join_names-BindsJoin _
            (name_subqueries-IsPlain builtin_ref_paths builtin_ref_paths-plain))
  ]

  -- For every type of relation, known or not, the join holds no placeholder, and the conditions
  -- that go with it have one for each of their arguments, where both aliases hold none.
  pub build_relation_join-BindsJoin :
      (relation_type : Text) → BindsJoin (build_relation_join relation_type ctx)
  unfolding build_relation_join
  build_relation_join-BindsJoin t = choose t rel_descendants _ _ descendant-BindsJoin (
      choose t rel_owners _ _ owner-BindsJoin (
        choose t rel_references _ _ references-BindsJoin (
          choose t rel_selects _ _ selects-BindsJoin (
            choose t rel_selected_by _ _ selected_by-BindsJoin (
              choose t rel_events _ _ events-BindsJoin (
                choose t rel_linked _ _ linked-BindsJoin
                  (choose t rel_grouped _ _ grouped-BindsJoin empty-BindsJoin)))))))
