-- ===== src/Prelude/Sorted.antt =====
-- `sorted(set(xs))` for texts: ascending by code point, each text once.
use Prim.Native.Char.{code}
use Prim.Native.Nat.{ℕ, Ordering, compare as compare_nat}
use Prim.Native.String.compare
use Prim.Native.String.{String, compare, then as in_turn}
use mathlib.Core.Path.{◌≡◌, refl}
use mathlib.Core.Bool.{Bool, true, false}
use mathlib.Core.List.{List, [], ◌∷◌}
use native.Mathlib.Omega.{arith}
use text.Mathlib.Text.{◌==◌ as str_eq}
use text.Mathlib.TextEquality.{eq_iff}
use data_engineer.Prelude.Tests.{if◌then◌else◌}
use data_engineer.Prelude.Dict.{mem}

unfoldable pub insert_sorted : String → List String → List String
insert_sorted k [] = k ∷ []
insert_sorted k (j ∷ js) = elim (compare k j) [
  | Ordering.lt ↦ k ∷ j ∷ js
  | Ordering.eq ↦ j ∷ js
  | Ordering.gt ↦ j ∷ insert_sorted k js
]

unfoldable pub sorted_set : List String → List String
unfolding insert_sorted
sorted_set [] = []
sorted_set (k ∷ ks) = insert_sorted k (sorted_set ks)

mem-insert_sorted :
    (x k : String) (js : List String)
    → mem x (insert_sorted k js) ≡ (if str_eq k x then true else mem x js)
unfolding insert_sorted
mem-insert_sorted x k [] = refl
mem-insert_sorted x k (j ∷ js) =
    ground (arith, mem-insert_sorted x k js, eq_iff k x, eq_iff j x, eq_iff k j)

-- Sorting keeps exactly the members.
pub mem-sorted_set : (x : String) (ks : List String) → mem x (sorted_set ks) ≡ mem x ks
unfolding sorted_set
mem-sorted_set x [] = refl
mem-sorted_set x (k ∷ ks) =
    ground (arith, mem-insert_sorted x k (sorted_set ks), mem-sorted_set x ks)

-- `a < b` for texts, by code points.
abbrev pub text_before : String → String → Bool
text_before a b = elim (compare a b) [ Ordering.lt ↦ true | _ ↦ false ]

abbrev before : Ordering → Bool
before o = elim o [ Ordering.lt ↦ true | _ ↦ false ]

then-before :
    (m n : ℕ) (o p : Ordering)
    → (before o ≡ true → before p ≡ false)
    → before (in_turn (compare_nat m n) o) ≡ true
    → before (in_turn (compare_nat n m) p) ≡ false
then-before m n o p rest h = ground (arith, rest, h)

pub text_before-asym : (a b : String) → text_before a b ≡ true → text_before b a ≡ false
text_before-asym String.[] String.[] h = ground (arith, h)
text_before-asym String.[] (String.◌∷◌ d t) h = ground (arith, compare.cons-nil d t)
text_before-asym (String.◌∷◌ c s) String.[] h = ground (arith, compare.cons-nil c s, h)
text_before-asym (String.◌∷◌ c s) (String.◌∷◌ d t) h = ground (
  arith,
  compare.cons-cons c d s t,
  compare.cons-cons d c t s,
  then-before (code c) (code d) (compare s t) (compare t s) (text_before-asym s t),
  h,
)
