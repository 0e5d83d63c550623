-- ===== src/Cache/QueryCache/Counts.antt =====
-- app/cache/query_cache.py: the counters of a cache.
use data_engineer.Prelude.{ℕ, ◌+◌, String, Option, none, some, ◌≡◌, refl, arith}
use data_engineer.Prelude.Dict
use data_engineer.Prelude.Dict.{
  Dict, Distinct, keys, contains, mem, get-put, get-put_self, get-remove, contains-get,
  get-contains,
}
use data_engineer.Prelude.Exec.{Result, ok, raised, answer, ◌>>=◌, modify, proceed}
use data_engineer.Cache.Entry.{Text, CachedQuery, Backend, Platform, Cache, State}
use data_engineer.Cache.QueryCache.{
  add_to_l1, hit, semantic_lookup, conclude, lookup_in, lookup, hash, normalize, total_lookups,
}
use data_engineer.Cache.QueryCache.Second.{Keeps-semantic_lookup}

module _ {F : Type 0} where
  total_lookups-add_to_l1 :
      (k : String) (entry : CachedQuery F) (c : Cache F)
      → total_lookups (add_to_l1 k entry c) ≡ total_lookups c
  unfolding add_to_l1 total_lookups
  total_lookups-add_to_l1 k entry c = ground arith

module _ {F V W : Type 0} (platform : Platform F) (backend : Option (Backend F V W)) where
  conclude-total_lookups :
      (k : String) (r : Result (Option (CachedQuery F))) (s : State F W) (n : ℕ)
      (o : Option (CachedQuery F))
      → total_lookups s.cache ≡ n
      → (proceed r (conclude platform backend k) s).0 ≡ ok o
      → total_lookups (proceed r (conclude platform backend k) s).1.cache ≡ n + 1
  unfolding conclude ◌>>=◌ modify answer total_lookups
  conclude-total_lookups k (raised e) s n o count h = ground arith
  conclude-total_lookups k (ok none) s n o count h = omega arith
  conclude-total_lookups k (ok (some entry)) s n o count h =
      omega
        (arith, total_lookups-add_to_l1 k entry (record s.cache { l2_hits = s.cache.l2_hits + 1 }))

  lookup_in-total_lookups :
      (b : Option (Backend F V W)) (found : Option (CachedQuery F)) (query : Text) (k : String)
      (s : State F W) (o : Option (CachedQuery F))
      → (lookup_in platform b found query k s).0 ≡ ok o
      → total_lookups (lookup_in platform b found query k s).1.cache ≡ total_lookups s.cache + 1
  unfolding lookup_in hit ◌>>=◌ answer total_lookups
  lookup_in-total_lookups b (some entry) query k s o h = omega arith
  lookup_in-total_lookups none none query k s o h =
      conclude-total_lookups k (ok none) s (total_lookups s.cache) o refl h
  lookup_in-total_lookups (some b) none query k s o h =
      let (r, t) = semantic_lookup platform backend b query k s in
      conclude-total_lookups k r t (total_lookups s.cache) o
        ((Keeps-semantic_lookup platform backend (λ c. total_lookups c ≡ total_lookups s.cache) k
            query b).at
          s refl)
        h

  -- A lookup that returns counts exactly once, as a hit of the first tier, a hit of the second
  -- tier or a miss.
  pub lookup-total_lookups :
      (query : Text) (s : State F W) (o : Option (CachedQuery F))
      → (lookup platform backend query s).0 ≡ ok o
      → total_lookups (lookup platform backend query s).1.cache ≡ total_lookups s.cache + 1
  unfolding lookup
  lookup-total_lookups query s o =
      let k = hash platform backend (normalize platform backend query) in
      lookup_in-total_lookups backend (Dict.get k s.cache.l1) (normalize platform backend query) k s
        o
