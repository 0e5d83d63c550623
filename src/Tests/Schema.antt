-- ===== src/Tests/Schema.antt =====
-- Examples of app/models/schema.py: a table with a column of telephone numbers.
use data_engineer.Prelude.{ℕ, String, true, false, Option, none, some, [], ◌∷◌, ◌≡◌, refl}
use data_engineer.Prelude.Value.{null}
use data_engineer.Models.Schema.{ColumnSchema, TableSchema, SchemaSnapshot}
use data_engineer.Models.Schema.Format.{column_lines}

abbrev decimal : ℕ → String
decimal n = "n"

abbrev show_reference : Option (String × String) → String
show_reference r = "None"

abbrev phone : ColumnSchema
phone = record {
  name = "mobile";
  type_ = "TEXT";
  nullable = false;
  is_primary_key = true;
  is_foreign_key = false;
  references = none;
  default = null;
  comment = some "of the customer";
  enum_values = none;
  sample_values = [];
  is_pii = true;
  pii_type = "phone";
}

abbrev customers : TableSchema
customers = record {
  name = "customers";
  comment = none;
  columns = phone ∷ record phone { name = "id"; is_pii = false } ∷ [];
  row_count_estimate = 3;
  indexes = [];
  foreign_keys = [];
  schema_name = none;
  catalog_name = some "";
}

abbrev snapshot : SchemaSnapshot (Unit {0})
snapshot = record {
  database_type = "sqlite";
  database_name = "shop";
  tables = ("customers", customers) ∷ [];
  other = tt;
}

masked :
    column_lines decimal show_reference "mask" phone
    ≡ "     <pii:phone>: TEXT NOT NULL -- PII column (masked)" ∷ []
unfolding column_lines
masked = refl

plain :
    column_lines decimal show_reference "off" phone
    ≡ "     mobile: TEXT NOT NULL [PK] -- of the customer" ∷ []
unfolding column_lines
plain = refl
