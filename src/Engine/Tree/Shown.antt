-- ===== src/Engine/Tree/Shown.antt =====
-- What the results of executeFlat and AssembleTree show of their rows.
use kube_graphql.Common.{
  if◌then◌else◌, Text, codes, text_eq, ne_text, is_empty, ◌≡◌, refl, ◌≢◌, ◌||◌, Option, none, some,
  List, [], ◌∷◌,
}
use kube_graphql.Api.{
  ObjectsSpec, absent, shape, ObjectResult, result, ResultMap, ResultList, nil, cons,
}
use kube_graphql.Engine.Tree.{FlatRow, mutable_path, object_of, row_to_result}

-- The object of a result is the row's, if it has one that is not empty and not null.
pub record ShowsObject (row : FlatRow) (shown : Option Text) : Type 0 where
  pub missing : row.projected_object ≡ none → shown ≡ none
  pub blank : row.projected_object ≡ some [] → shown ≡ none
  pub null : row.projected_object ≡ some (codes "null") → shown ≡ none
  pub present :
      (json : Text)
      → row.projected_object ≡ some json
      → json ≢ []
      → json ≢ codes "null"
      → shown ≡ some json

-- A result shows the id, the cluster and the path of a row as far as they are asked for, and the
-- row's object.
abbrev pub Shows : ObjectsSpec → FlatRow → ObjectResult → Type 0
Shows absent row (result id cluster path json m) =
    (id ≡ []) × (cluster ≡ []) × (path ≡ []) × ShowsObject row json
Shows (shape asks_id asks_cluster asks_path raw relations) row (result id cluster path json m) =
    (id ≡ (if asks_id then row.id else []))
    × (cluster ≡ (if asks_cluster then row.cluster else []))
    × (path ≡ (
        if asks_path
        then mutable_path row.api_group row.api_version row.resource row.namespace row.name
        else []))
    × ShowsObject row json

-- The results show the rows, one after another.
abbrev pub AllShow : ObjectsSpec → List FlatRow → ResultList → Type 0
AllShow o [] nil = Unit
AllShow o [] (cons r rs) = ⊥
AllShow o (row ∷ rows) nil = ⊥
AllShow o (row ∷ rows) (cons r rs) = Shows o row r × AllShow o rows rs

present_json :
    (json : Text)
    → json ≢ []
    → json ≢ codes "null"
    → (if is_empty json || text_eq json (codes "null") then none else some json) ≡ some json
present_json [] full other_json = absurd (full refl)
present_json (b ∷ s) full other_json = rw (ne_text (b ∷ s) (codes "null") other_json) refl

object_of-ShowsObject : (row : FlatRow) → ShowsObject row (object_of row)
unfolding object_of codes text_eq
object_of-ShowsObject row = record {
  missing = λ e. rw e refl;
  blank = λ e. rw e refl;
  null = λ e. rw e refl;
  present = λ json e full other_json. rw e (present_json json full other_json);
}

pub row_to_result-Shows :
    (row : FlatRow) (o : ObjectsSpec) (m : ResultMap) → Shows o row (row_to_result row o m)
unfolding row_to_result
row_to_result-Shows row absent m = (refl, refl, refl, object_of-ShowsObject row)
row_to_result-Shows row (shape asks_id asks_cluster asks_path raw relations) m =
    (refl, refl, refl, object_of-ShowsObject row)
