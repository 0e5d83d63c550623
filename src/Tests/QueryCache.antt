-- ===== src/Tests/QueryCache.antt =====
-- Examples of app/cache/query_cache.py: floats are numbers, the digest keeps the length of a text.

use data_engineer.Prelude.{
  map, ℕ, ◌+◌, String, none, some, [], ◌∷◌, ◌≡◌, refl, ltb, ◌-◌, ap, str_eq, if◌then◌else◌, ◌==◌,
  length, inl, inr, arith,
}
use data_engineer.Prelude.Dict
use data_engineer.Prelude.Exec.{ok, raised, failure, ◌>>=◌, modify, answer}
use data_engineer.Cache.Entry.{Text, Backend, Platform, State, semantic}
use data_engineer.Cache.QueryCache.{create, lookup, store, hash, normalize, total_lookups}
use data_engineer.Cache.QueryCache.Bounds.{IsValid, create-IsValid}
use data_engineer.Cache.QueryCache.Serve.{ask, offer, serve_all, serve_all-IsValid}
use data_engineer.Cache.QueryCache.Counts.{lookup-total_lookups}
use data_engineer.Cache.QueryCache.Contents.{lookup-store, store-IsSpared, first_hit}

abbrev digest : Text → String
digest [] = ""
digest (c ∷ cs) = String.◌∷◌ "x" (digest cs)

abbrev platform : Platform ℕ
platform = record {
  zero_float = 0;
  one_float = 100;
  greater = λ a b. ltb b a;
  similarity_of = λ d. 100 - d;
  to_lower = map (λ c. if c == 65 then 97 else c);
  sha256 = digest;
}

-- A vector store with one row, which counts the calls.
abbrev backend : Backend ℕ ℕ ℕ
backend = record {
  embed_single = λ q n. (ok (length q), n + 1);
  search = λ v n. (
    ok (
        record { distance = some 3; sql_text = some "select 2"; confidence = none; domain = none }
        ∷ []),
    n + 1,
  );
  insert = λ pair n. (raised (failure "full"), n + 1);
}

abbrev start : State ℕ ℕ
start = record { cache = create 2 5; world = 0 }

-- "A b" and " a  b"
abbrev question : Text
question = 65 ∷ 32 ∷ 98 ∷ []

abbrev spaced : Text
spaced = 32 ∷ 97 ∷ 32 ∷ 32 ∷ 98 ∷ []

serve_all-IsValid_example :
    IsValid
      (serve_all platform
        (some backend)
        (ask question ∷ offer (98 ∷ []) "select 1" 50 "" ∷ ask (98 ∷ 98 ∷ []) ∷ [])
        start).cache
serve_all-IsValid_example =
    serve_all-IsValid platform (some backend)
      (ask question ∷ offer (98 ∷ []) "select 1" 50 "" ∷ ask (98 ∷ 98 ∷ []) ∷ []) start
      (create-IsValid 2 5)

lookup-store_example :
    (lookup platform
      (some backend)
      spaced
      (store platform (some backend) question "select 1" 50 "" start).1).0
    ≡ ok (some (first_hit platform (some backend) question "select 1" 50 ""))
unfolding normalize
lookup-store_example =
    lookup-store platform (some backend) question spaced "select 1" 50 "" start refl

abbrev second : State ℕ ℕ
second = (store platform (some backend) question "select 1" 50 "" start).1

store-IsSpared_example :
    Dict.get "xxx" (store platform (some backend) (98 ∷ []) "select 3" 50 "" second).1.cache.l1
    ≡ Dict.get "xxx" second.cache.l1
unfolding create normalize hash store ◌>>=◌ modify answer Dict.put
store-IsSpared_example =
    store-IsSpared platform (some backend) "xxx" (98 ∷ []) "select 3" 50 "" second
      (λ same. ground (arith, ap (str_eq "xxx") same)) (inr (inl (omega arith)))

lookup-total_lookups_example :
    total_lookups (lookup platform (some backend) question start).1.cache
    ≡ total_lookups start.cache + 1
unfolding create lookup Dict.get ◌>>=◌ answer modify
lookup-total_lookups_example =
    lookup-total_lookups platform (some backend) question start
      (some (record {
        cache_id = "xxx";
        query = 97 ∷ 32 ∷ 98 ∷ [];
        sql_text = "select 2";
        confidence = 0;
        domain = "";
        hit_count = 0;
        match_level = semantic;
        similarity = 97;
      }))
      refl
