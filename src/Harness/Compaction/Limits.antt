-- ===== src/Harness/Compaction/Limits.antt =====
-- app/harness/compaction.py: the bounds of a compacted value, and compacting twice.
use Prim.Native.String.append
use Prim.Native.String.{◌++◌ as concat}
use data_engineer.Prelude.{
  ℕ, ◌+◌, ◌-◌, ◌≤◌, ◌<◌, zero, suc, String, some, List, [], ◌∷◌, ◌≡◌, refl, ap, arith,
  if◌then◌else◌, eq_iff,
}
use data_engineer.Prelude.Dict
use data_engineer.Prelude.Dict.{Dict, mem}
use data_engineer.Prelude.Value.{
  Value, null, boolean, int, real, zero_real, str, list, dict, obj, Items, nil, cons, Fields, end,
  field,
}
use data_engineer.Harness.Compaction.{
  ContextCompactor, len_text, take_text, drop_text, last_text, truncation_marker, length_items,
  limit, truncate_text, skipped_items, compact_value, compact_items, compact_fields, compact,
}

len_text-concat : (s t : String) → len_text (concat s t) ≡ len_text s + len_text t
unfolding len_text
len_text-concat String.[] t = ground (arith, append.nil t)
len_text-concat (String.◌∷◌ c s) t = ground (arith, append.cons c s t, len_text-concat s t)

len_text-take_text : (n : ℕ) (s : String) → len_text (take_text n s) ≤ n
unfolding len_text take_text
len_text-take_text zero s = omega arith
len_text-take_text (suc n) String.[] = omega arith
len_text-take_text (suc n) (String.◌∷◌ c s) = omega (arith, len_text-take_text n s)

len_text-drop_text : (n : ℕ) (s : String) → len_text (drop_text n s) ≡ len_text s - n
unfolding len_text drop_text
len_text-drop_text zero s = omega arith
len_text-drop_text (suc n) String.[] = omega arith
len_text-drop_text (suc n) (String.◌∷◌ c s) = omega (arith, len_text-drop_text n s)

module _ (c : ContextCompactor) where
  unfoldable mutual
    unfolding limit

    -- Every text is within the limit and every list has at most the most recent items, at any depth
    -- of lists and dictionaries.
    pub Within : Value → Type 0
    Within null = Unit
    Within (boolean b) = Unit
    Within (int n) = Unit
    Within (real r) = Unit
    Within zero_real = Unit
    Within (str text) = len_text text ≤ limit c
    Within (list vs) = (length_items vs ≤ c.max_list_items) × AllWithin vs
    Within (dict fs) = FieldsWithin fs
    Within (obj fs) = Unit

    pub AllWithin : Items → Type 0
    AllWithin nil = Unit
    AllWithin (cons v vs) = Within v × AllWithin vs

    pub FieldsWithin : Fields → Type 0
    FieldsWithin end = Unit
    FieldsWithin (field k v fs) = Within v × FieldsWithin fs

  len_text-truncate_text :
      (text : String) → 1 ≤ c.tail_chars → len_text (truncate_text c text) ≤ limit c
  unfolding truncate_text limit last_text
  len_text-truncate_text text positive = ground (
    arith,
    len_text-concat (take_text c.head_chars text)
        (concat truncation_marker (last_text c.tail_chars text)),
    len_text-concat truncation_marker (last_text c.tail_chars text),
    len_text-take_text c.head_chars text,
    len_text-drop_text (len_text text - c.tail_chars) text,
  )

  length-compact_items :
      (n : ℕ) (vs : Items) → length_items (compact_items c n vs) ≡ length_items vs - n
  unfolding compact_value length_items
  length-compact_items n nil = omega arith
  length-compact_items zero (cons v vs) = omega (arith, length-compact_items zero vs)
  length-compact_items (suc n) (cons v vs) = omega (arith, length-compact_items n vs)

module _ (c : ContextCompactor) (positive : 1 ≤ c.tail_chars) where
  mutual
    unfolding compact_value Within skipped_items

    compact-Within : (v : Value) → Within c (compact_value c v)
    compact-Within null = tt
    compact-Within (boolean b) = tt
    compact-Within (int n) = tt
    compact-Within (real r) = tt
    compact-Within zero_real = tt
    compact-Within (str text) = len_text-truncate_text c text positive
    compact-Within (list vs) = (
      omega (arith, length-compact_items c (skipped_items c vs) vs),
      compact_items-Within (skipped_items c vs) vs,
    )
    compact-Within (dict fs) = compact_fields-Within fs
    compact-Within (obj fs) = tt

    compact_items-Within : (n : ℕ) (vs : Items) → AllWithin c (compact_items c n vs)
    compact_items-Within n nil = tt
    compact_items-Within zero (cons v vs) = (compact-Within v, compact_items-Within zero vs)
    compact_items-Within (suc n) (cons v vs) = compact_items-Within n vs

    compact_fields-Within : (fs : Fields) → FieldsWithin c (compact_fields c fs)
    compact_fields-Within end = tt
    compact_fields-Within (field k v fs) = (compact-Within v, compact_fields-Within fs)

module _ (c : ContextCompactor) where
  truncate_within : (text : String) → len_text text ≤ limit c → truncate_text c text ≡ text
  unfolding truncate_text
  truncate_within text h = ground (arith, h)

  mutual
    unfolding compact_value Within skipped_items

    fixed : (v : Value) → Within c v → compact_value c v ≡ v
    fixed null h = refl
    fixed (boolean b) h = refl
    fixed (int n) h = refl
    fixed (real r) h = refl
    fixed zero_real h = refl
    fixed (str text) h = ap str (truncate_within text h)
    fixed (list vs) h = ap list (fixed_items (skipped_items c vs) vs (omega (arith, h.0)) h.1)
    fixed (dict fs) h = ap dict (fixed_fields fs h)
    fixed (obj fs) h = refl

    fixed_items : (n : ℕ) (vs : Items) → n ≡ 0 → AllWithin c vs → compact_items c n vs ≡ vs
    fixed_items n nil e h = refl
    fixed_items zero (cons v vs) e h = cc (fixed v h.0, fixed_items zero vs e h.1)
    fixed_items (suc n) (cons v vs) e h = absurd (omega (arith, e))

    fixed_fields : (fs : Fields) → FieldsWithin c fs → compact_fields c fs ≡ fs
    fixed_fields end h = refl
    fixed_fields (field k v fs) h = cc (fixed v h.0, fixed_fields fs h.1)

get-compact :
    (c : ContextCompactor) (keep : List String) (context : Dict Value) (j : String) (v : Value)
    → Dict.get j context ≡ some v
    → Dict.get j (compact c keep context) ≡ some (if mem j keep then v else compact_value c v)
unfolding compact Dict.get
get-compact c keep [] j v h = ground (arith, h)
get-compact c keep ((k, w) ∷ context) j v h =
    ground (arith, h, eq_iff k j, get-compact c keep context j v)

-- With a positive tail a compaction keeps the values of the keys to keep and compacts the others; a
-- compacted value is within the limits, and compacting it again changes nothing.
pub get-compact-Within :
    (c : ContextCompactor) (keep : List String) (context : Dict Value) (j : String) (v : Value)
    → 1 ≤ c.tail_chars
    → Dict.get j context ≡ some v
    → (Dict.get j (compact c keep context) ≡ some (if mem j keep then v else compact_value c v))
      × Within c (compact_value c v)
      × (compact_value c (compact_value c v) ≡ compact_value c v)
get-compact-Within c keep context j v positive here = (
  get-compact c keep context j v here,
  compact-Within c positive v,
  fixed c (compact_value c v) (compact-Within c positive v),
)

marker_long : 1 ≤ len_text truncation_marker
unfolding len_text
marker_long = omega arith

-- Without a tail a text over the limit is kept whole behind a copy of its head: it grows.
pub truncate_text_grows :
    (c : ContextCompactor) (text : String)
    → c.tail_chars ≡ 0
    → limit c < len_text text
    → len_text text < len_text (truncate_text c text)
unfolding truncate_text last_text
truncate_text_grows c text none_kept long = ground (
  arith,
  len_text-concat (take_text c.head_chars text)
      (concat truncation_marker (last_text c.tail_chars text)),
  len_text-concat truncation_marker (last_text c.tail_chars text),
  marker_long,
)
