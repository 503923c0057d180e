-- ===== src/Api.antt =====
-- apis/query/v1alpha1/types.go: the request and the response of a query.
-- A pointer is an `Option`, a map the list of its entries in the order of a `range`, a time an
-- integer number of nanoseconds, and a RawExtension its raw bytes.
use kube_graphql.Common.{Text, codes, ℤ, Bool, Option, List}

abbrev pub Time : Type 0
Time = ℤ

pub record ClusterFilter : Type 0 where
  pub name : Text
  pub labels : List (Text × Text)

pub record GroupKindFilter : Type 0 where
  pub api_group : Text
  pub kind : Text

-- LabelOperator: a string; `other` is any that is none of the four constants.
pub data LabelOperator : Type 0 where
  in_set not_in exists does_not_exist : LabelOperator
  other : Text → LabelOperator

pub record LabelExpression : Type 0 where
  pub key : Text
  pub operator : LabelOperator
  pub values : List Text

pub record ConditionFilter : Type 0 where
  pub kind : Text
  pub status : Text
  pub reason : Text

pub record TimestampFilter : Type 0 where
  pub after : Option Time
  pub before : Option Time

pub record ObjectFilter : Type 0 where
  pub group_kind : Option GroupKindFilter
  pub name : Text
  pub namespace : Text
  pub labels : List (Text × Text)
  pub label_expressions : List LabelExpression
  pub conditions : List ConditionFilter
  pub creation_timestamp : Option TimestampFilter
  pub id : Text
  pub json_path : Text
  pub categories : List Text

pub record QueryFilter : Type 0 where
  pub objects : List ObjectFilter

pub record PageSpec : Type 0 where
  pub first : ℤ
  pub cursor : Text

pub record OrderSpec : Type 0 where
  pub field : Text
  pub direction : Text

-- The two constants of type SortDirection.
abbrev pub sort_asc : Text
sort_asc = codes "Asc"

abbrev pub sort_desc : Text
sort_desc = codes "Desc"

-- ObjectsSpec, RelationSpec and the map between them are one recursive type. A missing
-- ObjectsSpec is `absent`.
mutual
  pub data ObjectsSpec : Type 0 where
    absent : ObjectsSpec
    shape : Bool → Bool → Bool → Option Text → RelationMap → ObjectsSpec

  pub data RelationMap : Type 0 where
    end : RelationMap
    relation : Text → RelationSpec → RelationMap → RelationMap

  pub data RelationSpec : Type 0 where
    spec : ℤ → List ObjectFilter → ObjectsSpec → RelationSpec

pub record QuerySpec : Type 0 where
  pub cluster : Option ClusterFilter
  pub filter : Option QueryFilter
  pub limit : ℤ
  pub page : Option PageSpec
  pub order : List OrderSpec
  pub count : Bool
  pub cursor : Bool
  pub max_depth : ℤ
  pub objects : ObjectsSpec

-- ObjectResult, with its map from a relation's name to a list of results.
mutual
  pub data ObjectResult : Type 0 where
    result : Text → Text → Text → Option Text → ResultMap → ObjectResult

  pub data ResultMap : Type 0 where
    end : ResultMap
    related : Text → ResultList → ResultMap → ResultMap

  pub data ResultList : Type 0 where
    nil : ResultList
    cons : ObjectResult → ResultList → ResultList

pub record CursorResult : Type 0 where
  pub next : Text
  pub page : ℤ
  pub page_size : ℤ

pub record QueryStatus : Type 0 where
  pub objects : ResultList
  pub cursor : Option CursorResult
  pub count : Option ℤ
  pub incomplete : Bool
  pub warnings : List Text
