-- ===== src/Tests/Database.antt =====
-- A database in memory: a table is the list of its rows, and no statement fails.
use mathlib.Core.Option.{some-injective}
use kube_graphql.Common.{keep, sym, not, some, List}
use kube_graphql.Store.{ObjectModel, ResourceTypeModel, ClusterModel, Db}
use kube_graphql.Store.Interface.{upsert, Table}

abbrev pub list_table : (Row : Type 0) → Table Row
list_table Row = record {
  State = List Row;
  rows = λ s. s;
  insert_or_update = λ same assign r s. some (upsert same assign r s);
  delete_where = λ p s. some (keep (λ r. not (p r)) s);
  select_where = λ p s. some (keep p s);
  rows-insert = λ same assign r s s' e. sym (some-injective _ _ e);
  rows-delete = λ p s s' e. sym (some-injective _ _ e);
  rows-select = λ p s rs e. sym (some-injective _ _ e);
}

abbrev pub memory : Db
memory = record {
  objects = list_table ObjectModel;
  resource_types = list_table ResourceTypeModel;
  clusters = list_table ClusterModel;
}
