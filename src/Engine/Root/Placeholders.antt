-- ===== src/Engine/Root/Placeholders.antt =====
-- buildRootClauses and the texts of generateRootOnly: their placeholders.
use kube_graphql.Common.{
  Bool-cases, length, All, Text, codes, join, ℕ, ◌+◌, ◌≡◌, refl, inl, inr, Option, none, some, List,
  [], ◌∷◌, arith,
}
use kube_graphql.Api.{ClusterFilter, ObjectFilter, QueryFilter, QuerySpec}
use kube_graphql.Engine.Codec.{Codec}
use kube_graphql.Engine.Filter.{build_object_filter}
use kube_graphql.Engine.Filter.Arguments.{HasPlainKeys, build_object_filter_with_rt-Exceeds}
use kube_graphql.Engine.Filter.Labels.{is_postgres}
use kube_graphql.Engine.Filter.Placeholders.{equal_clause-Exceeds, stray}
use kube_graphql.Engine.Projection.Plain.{HasPlainProjection}
use kube_graphql.Engine.Root.Conditions.{
  cluster_label_clause, cluster_label_clauses, cluster_clauses, group_of, group, or_groups,
  filter_clauses, build_root_clauses,
}
use kube_graphql.Engine.Sql.{
  Arg, marks, all_marks, IsPlain, marks-join, marks-concat, Clauses, Exceeds, ⊕-Exceeds,
  ⊕-Exceeds_right,
}

pub root_alias-IsPlain : IsPlain (codes "obj")
unfolding marks codes
root_alias-IsPlain = refl

pub rt_alias-IsPlain : IsPlain (codes "rt")
unfolding marks codes
rt_alias-IsPlain = refl

pub marks-all_marks : (s : Text) → all_marks (s ∷ []) ≡ marks s
unfolding all_marks
marks-all_marks s = omega arith

parentheses-marks : (s : Text) → all_marks (codes "(" ∷ s ∷ codes ")" ∷ []) ≡ marks s
unfolding all_marks marks codes
parentheses-marks s = omega arith

group_of-Exceeds :
    (sep : Text) (ws : List Text) (args : List Arg) (n : ℕ)
    → IsPlain sep
    → all_marks ws ≡ length args + n
    → Exceeds (group_of sep ws args) n
unfolding group_of
group_of-Exceeds sep [] args n hs h = unfold all_marks in omega arith
group_of-Exceeds sep (w ∷ ws) args n hs h =
    rw (marks-all_marks, marks-concat)
      (omega (arith, parentheses-marks (join (w ∷ ws) sep), marks-join (w ∷ ws) sep hs))

group-Exceeds :
    (sep : Text) (a : Clauses) (n : ℕ) → IsPlain sep → Exceeds a n → Exceeds (group sep a) n
unfolding group
group-Exceeds sep a n hs h = group_of-Exceeds sep a.clauses a.args n hs h

module _ (c : Codec) (dialect : Text) where
  cluster_label_clause-Exceeds :
      (k v : Text) → IsPlain k → Exceeds (cluster_label_clause c dialect k v) 0
  unfolding cluster_label_clause
  cluster_label_clause-Exceeds k v hk = elim (Bool-cases (is_postgres dialect)) [
    | inl e ↦ rw e (unfold all_marks marks codes in refl)
    | inr e ↦
        rw (e, cluster_label_clause, marks-all_marks, marks-concat)
          (unfold all_marks marks codes in omega arith)
  ]

  cluster_label_clauses-Exceeds :
      (labels : List (Text × Text))
      → All (λ l. IsPlain l.0) labels
      → Exceeds (cluster_label_clauses c dialect labels) 0
  unfolding cluster_label_clauses
  cluster_label_clauses-Exceeds [] h = unfold all_marks in refl
  cluster_label_clauses-Exceeds ((k, v) ∷ labels) h =
      ⊕-Exceeds _ _ 0 0 (cluster_label_clause-Exceeds k v h.0)
        (cluster_label_clauses-Exceeds labels h.1)

-- The keys that a query writes into the SQL hold no question mark.
pub record HasPlainNames (c : Codec) (q : QuerySpec) : Type 0 where
  pub cluster : (f : ClusterFilter) → q.cluster ≡ some f → All (λ l. IsPlain l.0) f.labels
  pub filter : (f : QueryFilter) → q.filter ≡ some f → All HasPlainKeys f.objects
  pub projection : HasPlainProjection c q.objects

-- The operators `?` in the conditions of several filters, and of a query.
unfoldable pub stray_filters : Text → List ObjectFilter → ℕ
stray_filters dialect [] = 0
stray_filters dialect (f ∷ fs) = stray dialect f.label_expressions + stray_filters dialect fs

unfoldable pub stray_query : Text → Option QueryFilter → ℕ
stray_query dialect none = 0
stray_query dialect (some f) = stray_filters dialect f.objects

module _ (c : Codec) (dialect alias : Text) (ha : IsPlain alias) where
  cluster_clauses-Exceeds :
      (cluster : Option ClusterFilter)
      → ((f : ClusterFilter) → cluster ≡ some f → All (λ l. IsPlain l.0) f.labels)
      → Exceeds (cluster_clauses c dialect cluster alias) 0
  unfolding cluster_clauses
  cluster_clauses-Exceeds none h = unfold all_marks in refl
  cluster_clauses-Exceeds (some f) h =
      ⊕-Exceeds _ _ 0 0
        (equal_clause-Exceeds alias ha (codes ".cluster") f.name (unfold marks codes in refl))
        (cluster_label_clauses-Exceeds c dialect f.labels (h f refl))

  or_groups-Exceeds :
      (fs : List ObjectFilter)
      → All HasPlainKeys fs
      → Exceeds (or_groups c dialect fs alias) (stray_filters dialect fs)
  unfolding or_groups stray_filters build_object_filter
  or_groups-Exceeds [] h = unfold all_marks in refl
  or_groups-Exceeds (f ∷ fs) h =
      ⊕-Exceeds _ _ (stray dialect f.label_expressions) (stray_filters dialect fs)
        (group-Exceeds (codes " AND ") _ (stray dialect f.label_expressions)
          (unfold marks codes in refl)
          (build_object_filter_with_rt-Exceeds c dialect f alias (codes "rt") ha rt_alias-IsPlain
            h.0))
        (or_groups-Exceeds fs h.1)

  filter_clauses-Exceeds :
      (filter : Option QueryFilter)
      → ((f : QueryFilter) → filter ≡ some f → All HasPlainKeys f.objects)
      → Exceeds (filter_clauses c dialect filter alias) (stray_query dialect filter)
  unfolding filter_clauses stray_query
  filter_clauses-Exceeds none h = unfold all_marks in refl
  filter_clauses-Exceeds (some f) h =
      group-Exceeds (codes " OR ") _ (stray_filters dialect f.objects) (unfold marks codes in refl)
        (or_groups-Exceeds f.objects (h f refl))

  pub build_root_clauses-Exceeds :
      (q : QuerySpec)
      → HasPlainNames c q
      → Exceeds (build_root_clauses c dialect q alias) (stray_query dialect q.filter)
  unfolding build_root_clauses
  build_root_clauses-Exceeds q h =
      ⊕-Exceeds_right _ _ (stray_query dialect q.filter)
        (cluster_clauses-Exceeds q.cluster h.cluster) (filter_clauses-Exceeds q.filter h.filter)
