-- ===== src/Models/Schema/Privacy.antt =====
-- app/models/schema.py: what a prompt tells of the columns with personal data.
use data_engineer.Prelude.{String, false, none, List, [], ◌≡◌, ◌⊎◌, map, if◌then◌else◌}
use data_engineer.Prelude.Dict
use data_engineer.Prelude.Dict.{Dict}
use data_engineer.Prelude.Value.{null}
use data_engineer.Models.Schema.{ColumnSchema, TableSchema, SchemaSnapshot}

-- A column with personal data without its name, its values, its keys and its comment.
abbrev pub conceal : ColumnSchema → ColumnSchema
conceal col =
    if col.is_pii
    then (record col {
      name = "";
      is_primary_key = false;
      is_foreign_key = false;
      references = none;
      default = null;
      comment = none;
      enum_values = none;
      sample_values = [];
    })
    else col

abbrev pub Guarded : String → Type 0
Guarded pii_mode = (pii_mode ≡ "mask") ⊎ (pii_mode ≡ "exclude")

abbrev pub conceal_table : TableSchema → TableSchema
conceal_table t = record t { columns = map conceal t.columns }

abbrev pub conceal_tables : Dict TableSchema → Dict TableSchema
conceal_tables tables = map (λ e. (e.0, conceal_table e.1)) tables

abbrev pub conceal_schema : {X : Type 0} → SchemaSnapshot X → SchemaSnapshot X
conceal_schema schema = record schema { tables = conceal_tables schema.tables }
