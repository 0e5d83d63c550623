-- ===== src/Prelude/Dict.antt =====
-- Python's `dict` with text keys, as an association list in insertion order: a write to a key that
-- is there stays in its place, a new key goes to the end.
use Prim.Native.Nat.{◌+◌, ◌≤◌}
use Prim.Native.String.{String}
use mathlib.Core.Path.{◌≡◌, refl}
use mathlib.Core.Bool.{Bool, true, false}
use mathlib.Core.Option.{Option, none, some}
use mathlib.Core.List.{List, [], ◌∷◌, ◌++◌, map}
use native.Mathlib.Omega.{arith}
use text.Mathlib.Text.{◌==◌ as str_eq}
use text.Mathlib.TextEquality.{eq_iff}
use data_engineer.Prelude.Tests.{if◌then◌else◌}
use data_engineer.Prelude.Lists.{length}

abbrev pub Dict {ℓ} : Type ℓ → Type ℓ
Dict V = List (String × V)

-- `x in xs`
abbrev pub mem : String → List String → Bool
mem k [] = false
mem k (j ∷ js) = if str_eq j k then true else mem k js

-- No text stands twice.
abbrev pub Distinct : List String → Type 0
Distinct [] = Unit
Distinct (k ∷ ks) = (mem k ks ≡ false) × Distinct ks

module _ {ℓ} {V : Type ℓ} where
  -- `d.get(k)`
  unfoldable pub get : String → Dict V → Option V
  get k [] = none
  get k ((j, v) ∷ m) = if str_eq j k then some v else get k m

  -- `d[k] = v`
  unfoldable pub put : String → V → Dict V → Dict V
  put k v [] = (k, v) ∷ []
  put k v ((j, w) ∷ m) = if str_eq j k then (j, v) ∷ m else (j, w) ∷ put k v m

  -- `d.pop(k, None)`, `del d[k]`
  unfoldable pub remove : String → Dict V → Dict V
  remove k [] = []
  remove k ((j, w) ∷ m) = let rest = remove k m in if str_eq j k then rest else (j, w) ∷ rest

  abbrev pub keys : Dict V → List String
  keys = map (λ e. e.0)

  -- `k in d`
  abbrev pub contains : String → Dict V → Bool
  contains k m = mem k (keys m)

module _ {ℓ} {V : Type ℓ} where
  -- `{**a, **b}`
  unfoldable pub merge : Dict V → Dict V → Dict V
  merge a [] = a
  merge a ((k, v) ∷ b) = merge (put k v a) b

  pub get-put :
      (j k : String) (v : V) (m : Dict V)
      → get j (put k v m) ≡ (if str_eq k j then some v else get j m)
  unfolding get put
  get-put j k v [] = refl
  get-put j k v ((i, w) ∷ m) = ground (arith, eq_iff k j, eq_iff i k, eq_iff i j, get-put j k v m)

  pub get-put_self : (k : String) (v : V) (m : Dict V) → get k (put k v m) ≡ some v
  get-put_self k v m = ground (arith, get-put k k v m, eq_iff k k)

  pub get-remove :
      (j k : String) (m : Dict V) → get j (remove k m) ≡ (if str_eq k j then none else get j m)
  unfolding get remove
  get-remove j k [] = ground arith
  get-remove j k ((i, w) ∷ m) = ground (arith, eq_iff k j, eq_iff i k, eq_iff i j, get-remove j k m)

  -- The test and the lookup agree.
  pub contains-get : (k : String) (m : Dict V) → contains k m ≡ false → get k m ≡ none
  unfolding get
  contains-get k [] h = refl
  contains-get k ((j, v) ∷ m) h = ground (arith, contains-get k m)

  pub get-contains : (k : String) (m : Dict V) (v : V) → get k m ≡ some v → contains k m ≡ true
  unfolding get
  get-contains k [] v h = ground arith
  get-contains k ((j, w) ∷ m) v h = ground (arith, get-contains k m v)

  pub get_none-contains : (k : String) (m : Dict V) → get k m ≡ none → contains k m ≡ false
  unfolding get
  get_none-contains k [] h = refl
  get_none-contains k ((j, w) ∷ m) h = ground (arith, get_none-contains k m)

  pub contains-put :
      (j k : String) (v : V) (m : Dict V)
      → contains j (put k v m) ≡ (if str_eq k j then true else contains j m)
  unfolding put
  contains-put j k v [] = refl
  contains-put j k v ((i, w) ∷ m) =
      ground (arith, eq_iff k j, eq_iff i k, eq_iff i j, contains-put j k v m)

  pub contains-remove :
      (j k : String) (m : Dict V)
      → contains j (remove k m) ≡ (if str_eq k j then false else contains j m)
  unfolding remove
  contains-remove j k [] = ground arith
  contains-remove j k ((i, w) ∷ m) =
      ground (arith, eq_iff k j, eq_iff i k, eq_iff i j, contains-remove j k m)

  pub put-Distinct :
      (k : String) (v : V) (m : Dict V) → Distinct (keys m) → Distinct (keys (put k v m))
  unfolding put
  put-Distinct k v [] d = (refl, tt)
  put-Distinct k v ((j, w) ∷ m) d =
      ground (arith, put-Distinct k v m d.1, contains-put j k v m, eq_iff j k, eq_iff k j)

  pub remove-Distinct : (k : String) (m : Dict V) → Distinct (keys m) → Distinct (keys (remove k m))
  unfolding remove
  remove-Distinct k [] d = tt
  remove-Distinct k ((j, w) ∷ m) d = ground (arith, remove-Distinct k m d.1, contains-remove j k m)

  -- A new key adds one entry, at the end.
  pub put_new :
      (k : String) (v : V) (m : Dict V) → contains k m ≡ false → put k v m ≡ m ++ (k, v) ∷ []
  unfolding put
  put_new k v [] h = refl
  put_new k v ((j, w) ∷ m) h = ground (arith, put_new k v m)

  -- A write to a key that is there keeps every key in its place.
  pub keys-put_old :
      (k : String) (v : V) (m : Dict V) → contains k m ≡ true → keys (put k v m) ≡ keys m
  unfolding put
  keys-put_old k v [] h = ground arith
  keys-put_old k v ((j, w) ∷ m) h = ground (arith, keys-put_old k v m)

  pub length-put :
      (k : String) (v : V) (m : Dict V)
      → length (put k v m) ≡ (if contains k m then length m else length m + 1)
  unfolding put
  length-put k v [] = omega arith
  length-put k v ((j, w) ∷ m) = ground (arith, length-put k v m)

  pub remove_absent : (k : String) (m : Dict V) → contains k m ≡ false → remove k m ≡ m
  unfolding remove
  remove_absent k [] h = refl
  remove_absent k ((j, w) ∷ m) h = ground (arith, remove_absent k m)

  pub length-remove :
      (k : String) (m : Dict V)
      → Distinct (keys m)
      → length m ≡ (if contains k m then length (remove k m) + 1 else length (remove k m))
  unfolding remove
  length-remove k [] d = omega arith
  length-remove k ((j, w) ∷ m) d =
      ground (arith, length-remove k m d.1, remove_absent k m, eq_iff j k)

  pub length-remove-le : (k : String) (m : Dict V) → length (remove k m) ≤ length m
  unfolding remove
  length-remove-le k [] = omega arith
  length-remove-le k ((j, w) ∷ m) = ground (arith, length-remove-le k m)

-- The value under the right operand wins, if there is one.
abbrev pub or_else {ℓ} : {A : Type ℓ} → Option A → Option A → Option A
or_else none b = b
or_else (some a) b = some a

pub get-merge {ℓ} :
    {V : Type ℓ} (j : String) (a b : Dict V)
    → Distinct (keys b)
    → get j (merge a b) ≡ or_else (get j b) (get j a)
unfolding get merge
get-merge j a [] d = refl
get-merge j a ((k, v) ∷ b) d =
    ground (arith, get-merge j (put k v a) b d.1, get-put j k v a, contains-get k b, eq_iff k j)

-- `d.get(k, default)` from what the lookup found.
abbrev pub otherwise {ℓ} : {A : Type ℓ} → Option A → A → A
otherwise none b = b
otherwise (some a) b = a
