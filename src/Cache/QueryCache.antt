-- ===== src/Cache/QueryCache.antt =====
-- app/cache/query_cache.py: the two-tier cache of questions and their SQL. Timestamps
-- are left out.
pub mod Bounds
pub mod Second
pub mod Serve
pub mod Counts
pub mod Contents
use data_engineer.Prelude.{
  ℕ, ◌+◌, max, String, Bool, true, false, Option, none, some, List, [], ◌∷◌, ◌++◌, leb, length,
  if◌then◌else◌,
}
use data_engineer.Cache.Entry.{
  Text, MatchLevel, exact, semantic, CachedQuery, Row, StoredPair, Backend, Platform, Cache, State,
  split, join, strip,
}
use data_engineer.Prelude.Dict
use data_engineer.Prelude.Dict.{Dict, contains}
use data_engineer.Prelude.Text.{is_space}
use data_engineer.Prelude.Exec.{
  Exec, Result, ok, raised, Exn, failure, infrastructure, cancelled, pure, gets, modify, ◌>>=◌,
  ◌>>◌,
}

-- `max(1, l1_max_size)`
unfoldable pub create : {F : Type 0} → ℕ → F → Cache F
create l1_max_size l2_threshold = record {
  l1 = [];
  l1_max_size = max 1 l1_max_size;
  l2_threshold = l2_threshold;
  l1_hits = 0;
  l2_hits = 0;
  misses = 0;
}

module _ {F : Type 0} where
  -- `od.move_to_end(k)`: the key is taken out and goes in again, at the end.
  unfoldable pub move_entry :
      String → Option (CachedQuery F) → Dict (CachedQuery F) → Dict (CachedQuery F)
  move_entry k none m = m
  move_entry k (some entry) m = Dict.put k entry (Dict.remove k m)

  unfoldable pub move_to_end : String → Dict (CachedQuery F) → Dict (CachedQuery F)
  unfolding move_entry
  move_to_end k m = move_entry k (Dict.get k m) m

  -- `od.popitem(last=False)`
  unfoldable pub pop_oldest : Dict (CachedQuery F) → Dict (CachedQuery F)
  pop_oldest [] = []
  pop_oldest (e ∷ m) = m

  unfoldable pub add_to_l1 : String → CachedQuery F → Cache F → Cache F
  unfolding move_to_end pop_oldest
  add_to_l1 cache_id entry c =
      if contains cache_id c.l1
      then record c { l1 = move_to_end cache_id (Dict.put entry.cache_id entry c.l1) }
      else if leb c.l1_max_size (length c.l1)
      then record c { l1 = Dict.put cache_id entry (pop_oldest c.l1) }
      else record c { l1 = Dict.put cache_id entry c.l1 }

  -- The branch of `lookup` for an entry that is in L1: the entry moves to the end and counts a hit.
  unfoldable pub hit : String → CachedQuery F → Cache F → Cache F × CachedQuery F
  unfolding move_to_end
  hit cache_id entry c =
      let entry' = record entry { hit_count = entry.hit_count + 1 } in
      (
        record c {
          l1 = Dict.put cache_id entry' (move_to_end cache_id c.l1);
          l1_hits = c.l1_hits + 1;
        },
        entry',
      )

  -- `clear`
  unfoldable pub clear : Cache F → Cache F
  clear c = record c { l1 = []; l1_hits = 0; l2_hits = 0; misses = 0 }

  -- `total_lookups` of `stats`
  unfoldable pub total_lookups : Cache F → ℕ
  total_lookups c = c.l1_hits + c.l2_hits + c.misses

-- `except Exception` round one call of the backend: `none` for an exception that it catches.
abbrev pub suppressed : {A : Type 0} → Result A → Result (Option A)
suppressed (ok a) = ok (some a)
suppressed (raised (failure message)) = ok none
suppressed (raised infrastructure) = ok none
suppressed (raised cancelled) = raised cancelled

unfoldable pub call : {F W A : Type 0} → Exec W A → Exec (State F W) (Option A)
call m s = let (r, w) = m s.world in (suppressed r, record s { world = w })

-- `d.get(key, default)`
abbrev pub default {ℓ} : {A : Type ℓ} → A → Option A → A
default a none = a
default a (some b) = b

module _ {F V W : Type 0} (platform : Platform F) (backend : Option (Backend F V W)) where
  unfoldable pub normalize : Text → Text
  unfolding split join strip
  normalize query = join (split [] (platform.to_lower (strip query)))

  unfoldable pub hash : Text → String
  hash normalized = platform.sha256 normalized

  -- The best row, unless it is too far away.
  unfoldable pub accept : F → String → Text → List (Row F) → Option (CachedQuery F)
  accept threshold cache_id query [] = none
  accept threshold cache_id query (row ∷ rows) =
      let distance = default platform.one_float row.distance in
      if platform.greater distance threshold
      then none
      else some (record {
        cache_id = cache_id;
        query = query;
        sql_text = default "" row.sql_text;
        confidence = default platform.zero_float row.confidence;
        domain = default "" row.domain;
        hit_count = 0;
        match_level = semantic;
        similarity = platform.similarity_of distance;
      })

  unfoldable pub accept_rows :
      String → Text → Option (List (Row F)) → Exec (State F W) (Option (CachedQuery F))
  unfolding accept
  accept_rows cache_id query none = pure none
  accept_rows cache_id query (some rows) =
      gets (λ s. accept s.cache.l2_threshold cache_id query rows)

  unfoldable pub search_vector :
      Backend F V W → String → Text → Option V → Exec (State F W) (Option (CachedQuery F))
  unfolding call accept_rows
  search_vector b cache_id query none = pure none
  search_vector b cache_id query (some vector) = do
    rows ← call (b.search vector)
    accept_rows cache_id query rows

  unfoldable pub semantic_lookup :
      Backend F V W → Text → String → Exec (State F W) (Option (CachedQuery F))
  unfolding call search_vector
  semantic_lookup b query cache_id = do
    vector ← call (b.embed_single query)
    search_vector b cache_id query vector

  abbrev on_cache : (Cache F → Cache F) → State F W → State F W
  on_cache f s = record s { cache = f s.cache }

  -- The end of `lookup`: a semantic match is promoted to L1, and no match is a miss.
  unfoldable pub conclude :
      String → Option (CachedQuery F) → Exec (State F W) (Option (CachedQuery F))
  unfolding add_to_l1
  conclude cache_id none = do modify (on_cache (λ c. record c { misses = c.misses + 1 })); pure none
  conclude cache_id (some result) = do
    modify (on_cache (λ c. add_to_l1 cache_id result (record c { l2_hits = c.l2_hits + 1 })))
    pure (some result)

  abbrev second_tier :
      Option (Backend F V W) → Text → String → Exec (State F W) (Option (CachedQuery F))
  second_tier none query cache_id = pure none
  second_tier (some b) query cache_id = semantic_lookup b query cache_id

  unfoldable pub lookup_in :
      Option (CachedQuery F) → Text → String → Exec (State F W) (Option (CachedQuery F))
  unfolding hit semantic_lookup conclude
  lookup_in (some entry) query cache_id s =
      let (c, entry') = hit cache_id entry s.cache in (ok (some entry'), record s { cache = c })
  lookup_in none query cache_id s = (second_tier backend query cache_id >>= conclude cache_id) s

  unfoldable pub lookup : Text → Exec (State F W) (Option (CachedQuery F))
  unfolding normalize hash lookup_in
  lookup query s =
      let normalized = normalize query in
      let cache_id = hash normalized in
      lookup_in (Dict.get cache_id s.cache.l1) normalized cache_id s

  unfoldable pub insert_vector :
      Backend F V W → String → Text → String → F → String → Option V → Exec (State F W) (Unit {0})
  unfolding call
  insert_vector b cache_id query sql_text confidence domain none = pure tt
  insert_vector b cache_id query sql_text confidence domain (some vector) = do
    call (
        b.insert (record {
          cache_id = cache_id;
          query = query;
          sql_text = sql_text;
          confidence = confidence;
          domain = domain;
          vector = vector;
        }))
    pure tt

  unfoldable pub store_semantic :
      Option (Backend F V W) → String → Text → String → F → String → Exec (State F W) (Unit {0})
  unfolding call insert_vector
  store_semantic none cache_id query sql_text confidence domain = pure tt
  store_semantic (some b) cache_id query sql_text confidence domain = do
    vector ← call (b.embed_single query)
    insert_vector b cache_id query sql_text confidence domain vector

  abbrev pub new_entry : String → Text → String → F → String → CachedQuery F
  new_entry cache_id query sql_text confidence domain = record {
    cache_id = cache_id;
    query = query;
    sql_text = sql_text;
    confidence = confidence;
    domain = domain;
    hit_count = 0;
    match_level = exact;
    similarity = platform.one_float;
  }

  unfoldable pub store : Text → String → F → String → Exec (State F W) String
  unfolding normalize hash add_to_l1 store_semantic
  store query sql_text confidence domain = do
    let cache_id = hash (normalize query)
    modify (on_cache (add_to_l1 cache_id (new_entry cache_id query sql_text confidence domain)))
    store_semantic backend cache_id (normalize query) sql_text confidence domain
    pure cache_id
