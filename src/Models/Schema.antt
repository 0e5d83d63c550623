-- ===== src/Models/Schema.antt =====
-- app/models/schema.py: the schema of a database, and its text for a prompt.
pub mod Format
pub mod Privacy
use data_engineer.Prelude.{ℕ, String, Bool, Option, List}
use data_engineer.Prelude.Dict
use data_engineer.Prelude.Dict.{Dict}
use data_engineer.Prelude.Sorted.{sorted_set}
use data_engineer.Prelude.Value.{Value}

pub record ColumnSchema : Type 0 where
  pub name : String
  pub type_ : String
  pub nullable : Bool
  pub is_primary_key : Bool
  pub is_foreign_key : Bool
  pub references : Option (String × String)
  pub default : Value
  pub comment : Option String
  pub enum_values : Option (List String)
  pub sample_values : List Value
  pub is_pii : Bool
  pub pii_type : String

pub record IndexInfo : Type 0 where
  pub name : String
  pub columns : List String
  pub is_unique : Bool
  pub method : String

pub record ForeignKey : Type 0 where
  pub name : String
  pub column : String
  pub ref_table : String
  pub ref_column : String

pub record TableSchema : Type 0 where
  pub name : String
  pub comment : Option String
  pub columns : List ColumnSchema
  pub row_count_estimate : ℕ
  pub indexes : List IndexInfo
  pub foreign_keys : List ForeignKey
  pub schema_name : Option String
  pub catalog_name : Option String

-- `X` are the fields that nothing here reads: the time, the version and the state of the source.
pub record SchemaSnapshot (X : Type 0) : Type 0 where
  pub database_type : String
  pub database_name : String
  pub tables : Dict TableSchema
  pub other : X

module _ {X : Type 0} where
  unfoldable pub get_table : String → SchemaSnapshot X → Option TableSchema
  get_table name schema = Dict.get name schema.tables

  unfoldable pub table_names : SchemaSnapshot X → List String
  unfolding sorted_set
  table_names schema = sorted_set (Dict.keys schema.tables)
