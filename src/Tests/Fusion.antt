-- ===== src/Tests/Fusion.antt =====
-- An example of app/knowledge/retrieval/rrf_fusion.py, with floats as numbers.
use data_engineer.Prelude.{
  take, ℕ, ◌+◌, ◌-◌, ◌/◌, arith, true, if◌then◌else◌, ◌≤◌, String, Option, none, some, List, [],
  ◌∷◌, ◌≡◌, refl, length, All, ltb,
}
use data_engineer.Prelude.Dict
use data_engineer.Prelude.Dict.{Distinct, mem}
use data_engineer.Knowledge.Fusion.{Doc, Floats, RrfFusion, fuse}
use data_engineer.Knowledge.Fusion.Members.{ids}
use data_engineer.Knowledge.Fusion.Fused.{IsRanked, occurs, fuse-IsRanked, mem-fuse}
use data_engineer.Knowledge.Fusion.Ordered.{IsDescending}

abbrev floats : Floats ℕ
floats = record {
  zero_float = 0;
  one_float = 10000;
  add = λ a b. a + b;
  subtract = λ a b. a - b;
  divide = λ a b. a / (b + 1);
  greater = λ a b. ltb b a;
}

abbrev fusion : RrfFusion ℕ
fusion = record { k = 60; alpha = 5000 }

abbrev doc : Option String → Doc
doc doc_id = record { doc_id = doc_id; fields = [] }

abbrev dense : List Doc
dense = doc (some "a") ∷ doc (some "b") ∷ doc (some "a") ∷ doc none ∷ []

abbrev sparse : List Doc
sparse = doc (some "b") ∷ doc (some "c") ∷ []

fuse-IsRanked_example :
    (length (fuse floats fusion dense sparse 2) ≤ 2)
    × Distinct (ids (fuse floats fusion dense sparse 2))
    × All (IsRanked floats fusion dense sparse) (fuse floats fusion dense sparse 2)
    × IsDescending floats (fuse floats fusion dense sparse 2)
    × ((more : ℕ)
        → fuse floats fusion dense sparse 2 ≡ take 2 (fuse floats fusion dense sparse (2 + more)))
fuse-IsRanked_example = fuse-IsRanked floats fusion dense sparse 2 (λ x y h. ground (arith, h))

mem-fuse_example :
    mem "c" (ids (fuse floats fusion dense sparse 4))
    ≡ (if occurs "c" dense then true else occurs "c" sparse)
unfolding fuse Dict.get Dict.put
mem-fuse_example = mem-fuse floats fusion dense sparse 4 "c" (omega arith)

best_two : ids (fuse floats fusion dense sparse 2) ≡ "b" ∷ "a" ∷ []
unfolding fuse Dict.get Dict.put
best_two = refl
