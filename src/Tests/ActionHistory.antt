-- ===== src/Tests/ActionHistory.antt =====
-- Examples of app/harness/action_history.py, with a history of two entries.
use data_engineer.Prelude.{◌≤◌, none, some, [], ◌∷◌, ◌++◌, ◌≡◌, refl, arith, length}
use data_engineer.Harness.ActionHistory.{ActionHistoryManager, started, finished, last}
use data_engineer.Harness.ActionHistory.Indices.{
  kept, recorded, overlapped, record_end-record_start, last-overlapped,
}

abbrev history : ActionHistoryManager
history = record { max_entries = 2; entries = started "sql" "a" ∷ started "sql" "b" ∷ [] }

record_end-record_start_example :
    ((recorded "sql" "c" "rows" none history).entries
      ≡ kept 2 history.entries ++ finished "rows" none (started "sql" "c") ∷ [])
    × (length (recorded "sql" "c" "rows" none history).entries ≤ 2)
record_end-record_start_example =
    record_end-record_start "sql" "c" history (omega arith) "rows" none (omega arith)

last-overlapped_example :
    last (overlapped ("sql", "c") ("sql", "d") "rows" none history)
    ≡ some (finished "rows" none (started "sql" "d"))
last-overlapped_example =
    last-overlapped ("sql", "c") ("sql", "d") "rows" none history (omega arith) refl
