-- ===== src/Harness/ActionHistory/Indices.antt =====
-- app/harness/action_history.py: what the index of a started action reaches.
use data_engineer.Prelude.{
  ℕ, ◌+◌, ◌≤◌, String, Option, some, List, [], ◌∷◌, ◌++◌, ◌≡◌, refl, sym, arith, ltb, length,
  length-append, length-drop, drop, if◌then◌else◌,
}
use data_engineer.Harness.ActionHistory.{
  ActionEntry, ActionHistoryManager, started, finished, last_index, evict, record_start, change,
  record_end, last, last_of,
}

-- An action that starts and ends, with no other between.
unfoldable pub recorded :
    String → String → String → Option String → ActionHistoryManager → ActionHistoryManager
unfolding record_start record_end
recorded name input output error h =
    record_end (record_start name input h).0 output error (record_start name input h).1

-- An action that starts, and ends after another one started.
unfoldable pub overlapped :
    String × String
    → String × String
    → String
    → Option String
    → ActionHistoryManager
    → ActionHistoryManager
unfolding record_start record_end
overlapped first second output error h =
    let (index, h') = record_start first.0 first.1 h in
    record_end index output error (record_start second.0 second.1 h').1

-- The older entries that a start keeps.
abbrev pub kept : ℕ → List ActionEntry → List ActionEntry
kept max_entries entries = if ltb max_entries (length entries + 1) then drop 1 entries else entries

evict-append :
    (n : ℕ) (entries : List ActionEntry) (e : ActionEntry)
    → 1 ≤ n
    → evict n (entries ++ e ∷ []) ≡ kept n entries ++ e ∷ []
evict-append n [] e p = ground arith
evict-append n (d ∷ entries) e p = ground (arith, length-append entries (e ∷ []))

change-append :
    (entries : List ActionEntry) (e : ActionEntry) (f : ActionEntry → ActionEntry)
    → change (some (length entries)) f (entries ++ e ∷ []) ≡ entries ++ f e ∷ []
unfolding change
change-append [] e f = refl
change-append (d ∷ entries) e f = rw (change-append entries e f)

last_of-append :
    (entries : List ActionEntry) (e : ActionEntry) → last_of (entries ++ e ∷ []) ≡ some e
unfolding last_of
last_of-append [] e = refl
last_of-append (d ∷ []) e = refl
last_of-append (d ∷ d' ∷ entries) e = last_of-append (d' ∷ entries) e

last_index-append :
    (entries : List ActionEntry) (e : ActionEntry)
    → last_index (length (entries ++ e ∷ [])) ≡ some (length entries)
last_index-append [] e = refl
last_index-append (d ∷ entries) e = ground (arith, length-append entries (e ∷ []))

module _ (name input : String) (h : ActionHistoryManager) (positive : 1 ≤ h.max_entries) where
  start-entries :
      (record_start name input h).1.entries
      ≡ kept h.max_entries h.entries ++ started name input ∷ []
  unfolding record_start
  start-entries = evict-append h.max_entries h.entries (started name input) positive

  start-index : (record_start name input h).0 ≡ some (length (kept h.max_entries h.entries))
  unfolding record_start
  start-index = ground (
    arith,
    evict-append h.max_entries h.entries (started name input) positive,
    last_index-append (kept h.max_entries h.entries) (started name input),
  )

  -- An action that ends right after it started is closed as the newest entry; the older ones are as
  -- they were, but for the oldest of a full history, and the bound holds.
  pub record_end-record_start :
      (output : String) (error : Option String)
      → length h.entries ≤ h.max_entries
      → ((recorded name input output error h).entries
          ≡ kept h.max_entries h.entries ++ finished output error (started name input) ∷ [])
        × (length (recorded name input output error h).entries ≤ h.max_entries)
  unfolding recorded record_end
  record_end-record_start output error bound = ground (
    arith,
    bound,
    positive,
    start-entries,
    start-index,
    change-append (kept h.max_entries h.entries) (started name input) (finished output error),
    length-append (kept h.max_entries h.entries) (finished output error (started name input) ∷ []),
    length-drop 1 h.entries,
  )

full_length :
    (n : ℕ) (entries : List ActionEntry)
    → 1 ≤ n
    → length entries ≡ n
    → length (kept n entries) + 1 ≡ n
full_length n entries p full = ground (arith, p, full, length-drop 1 entries)

second-entries :
    (first second : String × String) (h : ActionHistoryManager)
    → 1 ≤ h.max_entries
    → (record_start second.0 second.1 (record_start first.0 first.1 h).1).1.entries
      ≡ kept h.max_entries (kept h.max_entries h.entries ++ started first.0 first.1 ∷ [])
        ++ started second.0 second.1 ∷ []
unfolding record_start
second-entries first second h positive = rw (
  evict-append h.max_entries h.entries (started first.0 first.1) positive,
  evict-append h.max_entries (kept h.max_entries h.entries ++ started first.0 first.1 ∷ [])
      (started second.0 second.1) positive,
)

full_again :
    (n : ℕ) (entries : List ActionEntry) (e : ActionEntry)
    → 1 ≤ n
    → length entries ≡ n
    → length (kept n (kept n entries ++ e ∷ [])) ≡ length (kept n entries)
full_again n entries e p full =
    let here = full_length n entries p full in
    let longer : length (kept n entries ++ e ∷ []) ≡ n =
      omega (arith, here, length-append (kept n entries) (e ∷ [])) in
    omega (arith, here, full_length n (kept n entries ++ e ∷ []) p longer)

-- In a full history the index of an action that started reaches the next one that starts: the end
-- of the first closes the second.
pub last-overlapped :
    (first second : String × String) (output : String) (error : Option String)
    (h : ActionHistoryManager)
    → 1 ≤ h.max_entries
    → length h.entries ≡ h.max_entries
    → last (overlapped first second output error h)
      ≡ some (finished output error (started second.0 second.1))
unfolding overlapped record_end last
last-overlapped first second output error h positive full =
    let older = kept h.max_entries h.entries in
    let newer = kept h.max_entries (older ++ started first.0 first.1 ∷ []) in
    rw (
      start-index first.0 first.1 h positive,
      second-entries first second h positive,
      sym (full_again h.max_entries h.entries (started first.0 first.1) positive full),
      change-append newer (started second.0 second.1) (finished output error),
      last_of-append newer (finished output error (started second.0 second.1)),
    )
