-- ===== src/Tests/Compaction.antt =====
-- Examples of app/harness/compaction.py, with a small compactor.
use data_engineer.Prelude.{◌<◌, some, [], ◌∷◌, ◌≡◌, refl, arith, if◌then◌else◌}
use data_engineer.Prelude.Dict
use data_engineer.Prelude.Dict.{Dict, mem}
use data_engineer.Prelude.Value.{Value, str, list, nil, cons, null}
use data_engineer.Harness.Compaction.{
  ContextCompactor, len_text, limit, compact, compact_value, truncate_text,
}
use data_engineer.Harness.Compaction.Limits.{Within, get-compact-Within, truncate_text_grows}

abbrev compactor : ContextCompactor
compactor = record { head_chars = 2; tail_chars = 1; max_list_items = 1 }

abbrev context : Dict Value
context =
    ("sql", str "select 1")
    ∷ ("rows", list (cons null (cons (str "abcdefghijklmnopqrstuvw") nil)))
    ∷ []

get-compact-Within_example :
    (Dict.get "rows" (compact compactor ("sql" ∷ []) context)
      ≡ some (
          if mem "rows" ("sql" ∷ [])
          then list (cons null (cons (str "abcdefghijklmnopqrstuvw") nil))
          else compact_value compactor
              (list (cons null (cons (str "abcdefghijklmnopqrstuvw") nil)))))
    × Within compactor
        (compact_value compactor (list (cons null (cons (str "abcdefghijklmnopqrstuvw") nil))))
    × (compact_value compactor
          (compact_value compactor (list (cons null (cons (str "abcdefghijklmnopqrstuvw") nil))))
        ≡ compact_value compactor (list (cons null (cons (str "abcdefghijklmnopqrstuvw") nil))))
unfolding Dict.get
get-compact-Within_example =
    get-compact-Within compactor ("sql" ∷ []) context "rows"
      (list (cons null (cons (str "abcdefghijklmnopqrstuvw") nil))) (omega arith) refl

recent_item :
    compact_value compactor (list (cons null (cons (str "abcdefghijklmnopqrstuvw") nil)))
    ≡ list (cons (str "ab...[compacted]...w") nil)
unfolding compact_value
recent_item = refl

truncate_text_grows_example :
    len_text "abcdefghijklmnopqrstuvw"
    < len_text (
        truncate_text
          (record { head_chars = 2; tail_chars = 0; max_list_items = 1 })
          "abcdefghijklmnopqrstuvw")
unfolding limit len_text
truncate_text_grows_example =
    truncate_text_grows (record { head_chars = 2; tail_chars = 0; max_list_items = 1 })
      "abcdefghijklmnopqrstuvw" refl (omega arith)
