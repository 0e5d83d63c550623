-- ===== src/Models/Schema/Format.antt =====
-- app/models/schema.py: `format_for_llm`.
use Prim.Native.String.{◌++◌ as concat}
use data_engineer.Prelude.{
  ℕ, ◌-◌, ltb, String, Bool, Option, none, some, List, [], ◌∷◌, ◌++◌, ◌&&◌, length, take, map,
  str_eq, if◌then◌else◌,
}
use data_engineer.Prelude.Dict
use data_engineer.Prelude.Dict.{Dict, contains, keys}
use data_engineer.Prelude.Sorted.{sorted_set}
use data_engineer.Prelude.Text.{join_texts}
use data_engineer.Models.Schema.{ColumnSchema, TableSchema, SchemaSnapshot}

abbrev pub or_text : String → String → String
or_text String.[] b = b
or_text a b = a

-- `if v: lines.append(prefix + v)`
abbrev pub when_given : String → Option String → List String
when_given prefix none = []
when_given prefix (some String.[]) = []
when_given prefix (some t) = concat prefix t ∷ []

abbrev not_null : Bool → String
not_null nullable = if nullable then "" else " NOT NULL"

unfoldable pub masked_column : ColumnSchema → String
masked_column col = concat "     <pii:" (
    concat (or_text col.pii_type "sensitive")
      (concat ">: " (concat col.type_ (concat (not_null col.nullable) " -- PII column (masked)"))))

abbrev joined : List String → String
joined [] = ""
joined (t ∷ ts) = t

abbrev bracketed : List String → String
bracketed [] = ""
bracketed (t ∷ ts) = concat " [" (concat (join_texts ", " (t ∷ ts)) "]")

abbrev pub known : Dict TableSchema → List String → List String
known tables [] = []
known tables (t ∷ ts) = (if contains t tables then t ∷ [] else []) ++ known tables ts

unfoldable pub ordered_names : Dict TableSchema → List String → List String
unfolding sorted_set
ordered_names tables [] = sorted_set (keys tables)
ordered_names tables (t ∷ ts) = known tables (t ∷ ts)

abbrev pub found : Option TableSchema → List TableSchema
found none = []
found (some t) = t ∷ []

-- `[self.tables[name] for name in names]`, whose names are all there.
abbrev pub tables_at : Dict TableSchema → List String → List TableSchema
tables_at tables [] = []
tables_at tables (name ∷ names) = found (Dict.get name tables) ++ tables_at tables names

-- `decimal` is `str` of a number, and `show_reference` that of the value of `references`.
module _ (decimal : ℕ → String) (show_reference : Option (String × String) → String) where
  unfoldable pub plain_column : ColumnSchema → String
  unfolding join_texts
  plain_column col =
      let flags =
        (if col.is_primary_key then "PK" ∷ [] else [])
        ++ (if col.is_foreign_key then concat "FK→" (show_reference col.references) ∷ [] else []) in
      concat "     " (
        concat col.name (
          concat ": " (
            concat col.type_ (
              concat (not_null col.nullable)
                (concat (bracketed flags) (joined (when_given " -- " col.comment)))))))

  unfoldable pub column_lines : String → ColumnSchema → List String
  unfolding masked_column plain_column
  column_lines pii_mode col =
      if col.is_pii && str_eq pii_mode "exclude"
      then []
      else (if col.is_pii && str_eq pii_mode "mask"
          then masked_column col ∷ []
          else plain_column col ∷ [])

  unfoldable pub all_column_lines : String → List ColumnSchema → List String
  unfolding column_lines
  all_column_lines pii_mode [] = []
  all_column_lines pii_mode (col ∷ cols) =
      column_lines pii_mode col ++ all_column_lines pii_mode cols

  unfoldable pub table_lines : String → TableSchema → List String
  unfolding all_column_lines
  table_lines pii_mode t =
      concat "\n-- Table: " t.name ∷ when_given "   Schema: " t.schema_name
      ++ when_given "   Catalog: " t.catalog_name
      ++ when_given "   Comment: " t.comment
      ++ (if ltb 0 t.row_count_estimate
          then concat "   Estimated rows: " (decimal t.row_count_estimate) ∷ []
          else [])
      ++ "   Columns:" ∷ []
      ++ all_column_lines pii_mode t.columns

  unfoldable pub all_table_lines : String → List TableSchema → List String
  unfolding table_lines
  all_table_lines pii_mode [] = []
  all_table_lines pii_mode (t ∷ ts) = table_lines pii_mode t ++ all_table_lines pii_mode ts

  unfoldable pub summary_line : ℕ → ℕ → List String → String
  unfolding join_texts
  summary_line total limit shown =
      if ltb limit total
      then (concat "Tables (" (
          concat (decimal total) (
            concat " total, showing "
              (concat (decimal (length shown)) (concat "): " (join_texts ", " shown))))))
      else (concat "Tables ("
          (concat (decimal (length shown)) (concat "): " (join_texts ", " shown))))

  unfoldable pub more_lines : ℕ → ℕ → List String
  more_lines total limit =
      if ltb limit total
      then (concat "\n... and "
            (concat (decimal (total - limit)) " more tables (use describe_table to explore)")
          ∷ [])
      else []

  -- The lines of the tables under the head of the text, whose names are `shown`.
  unfoldable pub assemble : String → String → ℕ → ℕ → List String → List String → String
  unfolding summary_line more_lines join_texts
  assemble database_name database_type total table_limit shown lines = join_texts "\n" (
      concat "Database: " (concat database_name (concat " (" (concat database_type ")")))
        ∷ summary_line total table_limit shown
        ∷ lines
      ++ more_lines total table_limit)

  unfoldable pub format_tables : String → String → ℕ → ℕ → String → List TableSchema → String
  unfolding assemble all_table_lines
  format_tables database_name database_type total table_limit pii_mode shown =
      assemble database_name database_type total table_limit (map (λ t. t.name) shown)
        (all_table_lines pii_mode shown)

  -- `table_order` is empty for none.
  unfoldable pub format_for_llm :
      {X : Type 0} → ℕ → List String → String → SchemaSnapshot X → String
  unfolding format_tables ordered_names
  format_for_llm table_limit table_order pii_mode schema =
      format_tables schema.database_name schema.database_type (length schema.tables) table_limit
        pii_mode
        (tables_at schema.tables (take table_limit (ordered_names schema.tables table_order)))
