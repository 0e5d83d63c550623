-- ===== src/Cache/QueryCache/Serve.antt =====
-- app/cache/query_cache.py: any sequence of requests.
use data_engineer.Prelude.{◌+◌, String, Option, none, some, List, [], ◌∷◌, ◌≡◌, refl}
use data_engineer.Prelude.Dict
use data_engineer.Prelude.Dict.{
  Dict, Distinct, keys, contains, mem, get-put, get-put_self, get-remove, contains-get,
  get-contains,
}
use data_engineer.Prelude.Exec.{
  Result, ok, raised, Keeps-bind, Keeps-answer, Holds, answer, ◌>>=◌, modify, proceed, Leads,
  Leads-modify,
}
use data_engineer.Cache.Entry.{Text, CachedQuery, Backend, Platform, State}
use data_engineer.Cache.QueryCache.{
  semantic_lookup, conclude, lookup_in, lookup, store, hash, normalize,
}
use data_engineer.Cache.QueryCache.Bounds.{IsValid, add_to_l1-IsValid, hit-IsValid}
use data_engineer.Cache.QueryCache.Second.{
  Matched, Gives-semantic_lookup, Keeps-semantic_lookup, Keeps-store_semantic,
}

module _ {F V W : Type 0} (platform : Platform F) (backend : Option (Backend F V W)) where
  -- One request after another; the caller drops what a request returns or raises.
  pub data Request : Type 0 where
    ask : Text → Request
    offer : Text → String → F → String → Request

  unfoldable pub serve : Request → State F W → State F W
  unfolding lookup store
  serve (ask query) s = (lookup platform backend query s).1
  serve (offer query sql_text confidence domain) s =
      (store platform backend query sql_text confidence domain s).1

  unfoldable pub serve_all : List Request → State F W → State F W
  unfolding serve
  serve_all [] s = s
  serve_all (request ∷ requests) s = serve_all requests (serve request s)

  conclude-IsValid :
      (k : String) (r : Result (Option (CachedQuery F))) (s : State F W)
      → Holds (Matched IsValid k) (r, s)
      → IsValid s.cache
      → IsValid (proceed r (conclude platform backend k) s).1.cache
  unfolding conclude ◌>>=◌ modify answer
  conclude-IsValid k (raised e) s h v = v
  conclude-IsValid k (ok none) s h v = record {
    positive = v.positive;
    bounded = v.bounded;
    distinct = v.distinct;
  }
  conclude-IsValid k (ok (some entry)) s h v =
      add_to_l1-IsValid k entry (record s.cache { l2_hits = s.cache.l2_hits + 1 }) h.0
        (record { positive = v.positive; bounded = v.bounded; distinct = v.distinct })

  look-IsValid :
      (b : Option (Backend F V W)) (query : Text) (k : String) (s : State F W)
      → IsValid s.cache
      → IsValid (lookup_in platform b none query k s).1.cache
  unfolding lookup_in ◌>>=◌ answer
  look-IsValid none query k s v = conclude-IsValid k (ok none) s (tt, v) v
  look-IsValid (some b) query k s v =
      let (r, t) = semantic_lookup platform backend b query k s in
      conclude-IsValid k r t ((Gives-semantic_lookup platform backend IsValid k query b).at s v)
        ((Keeps-semantic_lookup platform backend IsValid k query b).at s v)

  lookup_in-IsValid :
      (o : Option (CachedQuery F)) (query : Text) (k : String) (s : State F W)
      → Dict.get k s.cache.l1 ≡ o
      → IsValid s.cache
      → IsValid (lookup_in platform backend o query k s).1.cache
  unfolding lookup_in
  lookup_in-IsValid none query k s here v = look-IsValid backend query k s v
  lookup_in-IsValid (some entry) query k s here v = hit-IsValid k entry s.cache here v

  store-IsValid :
      (query : Text) (sql_text : String) (confidence : F) (domain : String)
      → Leads
          (λ s. IsValid s.cache)
          (λ s. IsValid s.cache)
          (store platform backend query sql_text confidence domain)
  unfolding store
  store-IsValid query sql_text confidence domain =
      Leads-modify _ _
        (λ s.
          add_to_l1-IsValid (hash platform backend (normalize platform backend query)) _ s.cache
            refl)
        (Keeps-bind _ _
          (Keeps-store_semantic platform backend IsValid _ _ backend sql_text confidence domain)
          (λ done. Keeps-answer _))

  -- Whatever the backend does, every request leaves the first tier within its bound and each key
  -- in it once.
  pub serve_all-IsValid :
      (requests : List Request) (s : State F W)
      → IsValid s.cache
      → IsValid (serve_all requests s).cache
  unfolding serve_all serve lookup
  serve_all-IsValid [] s v = v
  serve_all-IsValid (ask query ∷ requests) s v =
      let k = hash platform backend (normalize platform backend query) in
      serve_all-IsValid requests (lookup platform backend query s).1
        (lookup_in-IsValid (Dict.get k s.cache.l1) (normalize platform backend query) k s refl v)
  serve_all-IsValid (offer query sql_text confidence domain ∷ requests) s v =
      serve_all-IsValid requests (store platform backend query sql_text confidence domain s).1
        ((store-IsValid query sql_text confidence domain).at s v)
