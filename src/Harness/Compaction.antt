-- ===== src/Harness/Compaction.antt =====
-- app/harness/compaction.py: the compaction of a context. Numbers of characters and items are taken
-- to be 0 or above; a `tuple` or an object is an `obj`.
pub mod Limits
use Prim.Native.String.{◌++◌ as concat}
use data_engineer.Prelude.{
  ℕ, ◌+◌, ◌-◌, zero, suc, String, Bool, true, false, Option, none, some, List, [], ◌∷◌, leb, ◌==◌,
  if◌then◌else◌,
}
use data_engineer.Prelude.Dict.{Dict, mem}
use data_engineer.Prelude.Value.{
  Value, null, boolean, int, real, zero_real, str, list, dict, obj, Items, nil, cons, Fields, end,
  field,
}
use data_engineer.Prelude.Exec.{Exec, pure, ◌>>=◌}

-- `len(text)`, `text[:n]` and `text[n:]`.
unfoldable pub len_text : String → ℕ
len_text String.[] = 0
len_text (String.◌∷◌ c s) = suc (len_text s)

unfoldable pub take_text : ℕ → String → String
take_text zero s = String.[]
take_text (suc n) String.[] = String.[]
take_text (suc n) (String.◌∷◌ c s) = String.◌∷◌ c (take_text n s)

unfoldable pub drop_text : ℕ → String → String
drop_text zero s = s
drop_text (suc n) String.[] = String.[]
drop_text (suc n) (String.◌∷◌ c s) = drop_text n s

-- `text[-n:]`, which is all of the text for 0.
unfoldable pub last_text : ℕ → String → String
unfolding len_text drop_text
last_text n s = if n == 0 then s else drop_text (len_text s - n) s

abbrev pub truncation_marker : String
truncation_marker = "...[compacted]..."

pub record ContextCompactor : Type 0 where
  pub head_chars : ℕ
  pub tail_chars : ℕ
  pub max_list_items : ℕ

abbrev pub default_compactor : ContextCompactor
default_compactor = record { head_chars = 500; tail_chars = 200; max_list_items = 10 }

unfoldable pub length_items : Items → ℕ
length_items nil = 0
length_items (cons v vs) = suc (length_items vs)

module _ (c : ContextCompactor) where
  unfoldable pub limit : ℕ
  unfolding len_text
  limit = c.head_chars + c.tail_chars + len_text truncation_marker

  unfoldable pub truncate_text : String → String
  unfolding limit take_text last_text
  truncate_text text =
      if leb (len_text text) limit
      then text
      else concat (take_text c.head_chars text)
          (concat truncation_marker (last_text c.tail_chars text))

  -- The items that `value[-max_list_items:]` leaves out, if the number is positive.
  unfoldable pub skipped_items : Items → ℕ
  unfolding length_items
  skipped_items vs = length_items vs - c.max_list_items

  unfoldable mutual
    unfolding truncate_text skipped_items

    pub compact_value : Value → Value
    compact_value null = null
    compact_value (boolean b) = boolean b
    compact_value (int n) = int n
    compact_value (real r) = real r
    compact_value zero_real = zero_real
    compact_value (str text) = str (truncate_text text)
    compact_value (list vs) = list (compact_items (skipped_items vs) vs)
    compact_value (dict fs) = dict (compact_fields fs)
    compact_value (obj fs) = obj fs

    -- The items after the first `n`.
    pub compact_items : ℕ → Items → Items
    compact_items n nil = nil
    compact_items zero (cons v vs) = cons (compact_value v) (compact_items zero vs)
    compact_items (suc n) (cons v vs) = compact_items n vs

    pub compact_fields : Fields → Fields
    compact_fields end = end
    compact_fields (field k v fs) = field k (compact_value v) (compact_fields fs)

  unfoldable pub compact : List String → Dict Value → Dict Value
  unfolding compact_value
  compact keep [] = []
  compact keep ((k, v) ∷ context) =
      (k, if mem k keep then v else compact_value v) ∷ compact keep context

  -- One value of `compact_async`, with a summarizer.
  unfoldable pub summarize_value : {W : Type 0} → (String → Exec W String) → Value → Exec W Value
  unfolding compact_value limit len_text
  summarize_value summarizer (str text) =
      if leb (len_text text) limit
      then pure (compact_value (str text))
      else summarizer text >>= λ summary. pure (str summary)
  summarize_value summarizer v = pure (compact_value v)

  unfoldable pub compact_entries :
      {W : Type 0} → (String → Exec W String) → List String → Dict Value → Exec W (Dict Value)
  unfolding summarize_value
  compact_entries summarizer keep [] = pure []
  compact_entries summarizer keep ((k, v) ∷ context) = do
    v' ← if mem k keep then pure v else summarize_value summarizer v
    rest ← compact_entries summarizer keep context
    pure ((k, v') ∷ rest)

  unfoldable pub compact_async :
      {W : Type 0}
      → Option (String → Exec W String)
      → List String
      → Dict Value
      → Exec W (Dict Value)
  unfolding compact compact_entries
  compact_async none keep context = pure (compact keep context)
  compact_async (some summarizer) keep context = compact_entries summarizer keep context
