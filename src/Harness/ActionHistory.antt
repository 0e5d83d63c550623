-- ===== src/Harness/ActionHistory.antt =====
-- app/harness/action_history.py: the last actions of a node. Times are left out: `completed` says
-- whether an action has one. An index is `none` where the source returns -1.
pub mod Indices
use data_engineer.Prelude.{
  ℕ, ◌-◌, zero, suc, String, Bool, true, false, Option, none, some, List, [], ◌∷◌, ◌++◌, ltb,
  length, drop, if◌then◌else◌,
}

pub record ActionEntry : Type 0 where
  pub node_name : String
  pub input_summary : String
  pub output_summary : String
  pub completed : Bool
  pub error : Option String

pub record ActionHistoryManager : Type 0 where
  pub max_entries : ℕ
  pub entries : List ActionEntry

abbrev pub started : String → String → ActionEntry
started node_name input_summary = record {
  node_name = node_name;
  input_summary = input_summary;
  output_summary = "";
  completed = false;
  error = none;
}

abbrev pub finished : String → Option String → ActionEntry → ActionEntry
finished output_summary error entry = record entry {
  output_summary = output_summary;
  completed = true;
  error = error;
}

-- `len(entries) - 1`
abbrev pub last_index : ℕ → Option ℕ
last_index zero = none
last_index (suc n) = some n

abbrev pub evict : ℕ → List ActionEntry → List ActionEntry
evict max_entries entries = if ltb max_entries (length entries) then drop 1 entries else entries

unfoldable pub record_start :
    String → String → ActionHistoryManager → Option ℕ × ActionHistoryManager
record_start node_name input_summary h =
    let entries = evict h.max_entries (h.entries ++ started node_name input_summary ∷ []) in
    (last_index (length entries), record h { entries = entries })

-- The entry at an index is mutated; out of range nothing is.
unfoldable pub change : Option ℕ → (ActionEntry → ActionEntry) → List ActionEntry → List ActionEntry
change none f entries = entries
change (some i) f [] = []
change (some zero) f (e ∷ entries) = f e ∷ entries
change (some (suc i)) f (e ∷ entries) = e ∷ change (some i) f entries

unfoldable pub record_end :
    Option ℕ → String → Option String → ActionHistoryManager → ActionHistoryManager
unfolding change
record_end index output_summary error h = record h {
  entries = change index (finished output_summary error) h.entries;
}

unfoldable pub last_of : List ActionEntry → Option ActionEntry
last_of [] = none
last_of (e ∷ []) = some e
last_of (e ∷ e' ∷ entries) = last_of (e' ∷ entries)

unfoldable pub last : ActionHistoryManager → Option ActionEntry
unfolding last_of
last h = last_of h.entries

unfoldable pub clear : ActionHistoryManager → ActionHistoryManager
clear h = record h { entries = [] }
