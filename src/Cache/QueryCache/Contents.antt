-- ===== src/Cache/QueryCache/Contents.antt =====
-- app/cache/query_cache.py: what a lookup and a store leave in the cache, and what they return.
use data_engineer.Prelude.{
  ◌+◌, String, true, Option, none, some, [], ◌∷◌, ◌≡◌, ◌≢◌, ◌<◌, ◌⊎◌, ◌∙◌, get_elem?, refl, ap,
  length, arith, eq_iff,
}
use data_engineer.Prelude.Dict
use data_engineer.Prelude.Dict.{
  Dict, Distinct, keys, contains, mem, get-put, get-put_self, get-remove, contains-get,
  get-contains,
}
use data_engineer.Prelude.Exec.{ok, Keeps-bind, Keeps-answer, Leads, Leads-modify}
use data_engineer.Cache.Entry.{Text, CachedQuery, Backend, Platform, Cache, State, exact}
use data_engineer.Cache.QueryCache.{
  move_entry, move_to_end, pop_oldest, add_to_l1, hit, lookup_in, lookup, store, hash, normalize,
  new_entry,
}
use data_engineer.Cache.QueryCache.Second.{Keeps-store_semantic}

module _ {F : Type 0} where
  get-move_entry :
      (j k : String) (o : Option (CachedQuery F)) (m : Dict (CachedQuery F))
      → Dict.get k m ≡ o
      → Dict.get j (move_entry k o m) ≡ Dict.get j m
  unfolding move_entry
  get-move_entry j k none m h = refl
  get-move_entry j k (some entry) m h =
      ground (arith, get-put j k entry (Dict.remove k m), get-remove j k m, eq_iff k j)

  get-move_to_end :
      (j k : String) (m : Dict (CachedQuery F)) → Dict.get j (move_to_end k m) ≡ Dict.get j m
  unfolding move_to_end
  get-move_to_end j k m = get-move_entry j k (Dict.get k m) m refl

  -- A new entry is found under its key.
  get-add_to_l1 :
      (k : String) (entry : CachedQuery F) (c : Cache F)
      → entry.cache_id ≡ k
      → Dict.get k (add_to_l1 k entry c).l1 ≡ some entry
  unfolding add_to_l1
  get-add_to_l1 k entry c own = ground (
    arith,
    own,
    get-move_to_end k k (Dict.put entry.cache_id entry c.l1),
    get-put_self entry.cache_id entry c.l1,
    get-put_self k entry (pop_oldest c.l1),
    get-put_self k entry c.l1,
  )

  -- The entry that goes when the tier is full.
  abbrev pub IsOldest : String → Dict (CachedQuery F) → Type 0
  IsOldest k m = get_elem? (keys m) 0 ≡ some k

  get-pop_oldest :
      (j : String) (m : Dict (CachedQuery F))
      → ¬ IsOldest j m
      → Dict.get j (pop_oldest m) ≡ Dict.get j m
  unfolding pop_oldest Dict.get
  get-pop_oldest j [] other = refl
  get-pop_oldest j ((i, e) ∷ m) other = ground (arith, other, eq_iff i j)

  -- The entry stays: the write replaces one, there is room, or another one is the oldest.
  abbrev pub IsSpared : String → String → Cache F → Type 0
  IsSpared j k c = (contains k c.l1 ≡ true) ⊎ (length c.l1 < c.l1_max_size) ⊎ (¬ IsOldest j c.l1)

  add_to_l1-spared :
      (j k : String) (entry : CachedQuery F) (c : Cache F)
      → entry.cache_id ≡ k
      → j ≢ k
      → IsSpared j k c
      → Dict.get j (add_to_l1 k entry c).l1 ≡ Dict.get j c.l1
  unfolding add_to_l1
  add_to_l1-spared j k entry c own other spared = ground (
    arith,
    own,
    other,
    eq_iff k j,
    get-move_to_end j k (Dict.put entry.cache_id entry c.l1),
    get-put j entry.cache_id entry c.l1,
    get-put j k entry (pop_oldest c.l1),
    get-put j k entry c.l1,
    get-pop_oldest j c.l1,
    spared,
  )

module _ {F V W : Type 0} (platform : Platform F) (backend : Option (Backend F V W)) where
  lookup_in-found :
      (found : Option (CachedQuery F)) (entry : CachedQuery F) (query : Text) (k : String)
      (s : State F W)
      → found ≡ some entry
      → (lookup_in platform backend found query k s).0
        ≡ ok (some (record entry { hit_count = entry.hit_count + 1 }))
  unfolding lookup_in hit
  lookup_in-found none entry query k s h = ground arith
  lookup_in-found (some entry') entry query k s h = ground (arith, h)

  store-get :
      (query : Text) (sql_text : String) (confidence : F) (domain : String)
      → Leads
          (λ s. Unit)
          (λ s.
            Dict.get (hash platform backend (normalize platform backend query)) s.cache.l1
            ≡ some (
                new_entry platform backend
                  (hash platform backend (normalize platform backend query))
                  query
                  sql_text
                  confidence
                  domain))
          (store platform backend query sql_text confidence domain)
  unfolding store
  store-get query sql_text confidence domain =
      Leads-modify _ _ (λ s done. get-add_to_l1 _ _ s.cache refl)
        (Keeps-bind _ _
          (Keeps-store_semantic platform backend
            (λ c. Dict.get (hash platform backend (normalize platform backend query)) c.l1 ≡ _) _ _
            backend sql_text confidence domain)
          (λ done. Keeps-answer _))

  -- The entry as the first lookup after the store returns it.
  abbrev pub first_hit : Text → String → F → String → CachedQuery F
  first_hit query sql_text confidence domain = record {
    cache_id = hash platform backend (normalize platform backend query);
    query = query;
    sql_text = sql_text;
    confidence = confidence;
    domain = domain;
    hit_count = 1;
    match_level = exact;
    similarity = platform.one_float;
  }

  -- What is stored for a question is returned for every question with the same normal form, also
  -- when the backend fails: with the SQL as stored, as an exact match and with one hit.
  pub lookup-store :
      (query query' : Text) (sql_text : String) (confidence : F) (domain : String) (s : State F W)
      → normalize platform backend query' ≡ normalize platform backend query
      → (lookup platform backend query'
          (store platform backend query sql_text confidence domain s).1).0
        ≡ ok (some (first_hit query sql_text confidence domain))
  unfolding lookup
  lookup-store query query' sql_text confidence domain s same =
      let t = (store platform backend query sql_text confidence domain s).1 in
      lookup_in-found _ _ (normalize platform backend query') _ t (
        ap (λ n. Dict.get (hash platform backend n) t.cache.l1) same
        ∙ (store-get query sql_text confidence domain).at s tt)

  -- A store keeps every other entry, but for the oldest one, which goes when the tier is full and
  -- the question is new.
  pub store-IsSpared :
      (j : String) (query : Text) (sql_text : String) (confidence : F) (domain : String)
      (s : State F W)
      → j ≢ hash platform backend (normalize platform backend query)
      → IsSpared j (hash platform backend (normalize platform backend query)) s.cache
      → Dict.get j (store platform backend query sql_text confidence domain s).1.cache.l1
        ≡ Dict.get j s.cache.l1
  unfolding store
  store-IsSpared j query sql_text confidence domain s other spared =
      let k = hash platform backend (normalize platform backend query) in
      let entry = new_entry platform backend k query sql_text confidence domain in
      (Leads-modify {P = λ t. Dict.get j (add_to_l1 k entry t.cache).l1 ≡ Dict.get j s.cache.l1} _ _
          (λ t h. h)
          (Keeps-bind _ _
            (Keeps-store_semantic platform backend (λ c. Dict.get j c.l1 ≡ Dict.get j s.cache.l1) k
              (normalize platform backend query) backend sql_text confidence domain)
            (λ done. Keeps-answer _))).at
        s (add_to_l1-spared j k entry s.cache refl other spared)
