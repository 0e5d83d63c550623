-- ===== src/Cache/QueryCache/Second.antt =====
-- app/cache/query_cache.py: the second tier acts on its own world, and what it returns.
use data_engineer.Prelude.{String, Option, none, some, List, [], ◌∷◌, ◌≡◌, refl, if-branch}
use data_engineer.Prelude.Exec.{
  Exec, Keeps, Keeps-bind, Keeps-answer, Gives, Gives-bind, Gives-Keeps, answer,
}
use data_engineer.Cache.Entry.{Text, CachedQuery, Row, Backend, Platform, Cache, State}
use data_engineer.Cache.QueryCache.{
  call, accept, accept_rows, search_vector, semantic_lookup, insert_vector, store_semantic, default,
}

-- A match carries the identifier that it was looked up under.
abbrev pub Own : {F : Type 0} → String → Option (CachedQuery F) → Type 0
Own k none = Unit
Own k (some entry) = entry.cache_id ≡ k

abbrev pub Matched :
    {F W : Type 0} → (Cache F → Type 0) → String → Option (CachedQuery F) → State F W → Type 0
Matched P k o s = Own k o × P s.cache

module _ {F V W : Type 0} (platform : Platform F) (backend : Option (Backend F V W)) where
  -- The backend acts on its world alone.
  Keeps-call :
      {A : Type 0} (P : Cache F → Type 0) (m : Exec W A) → Keeps (λ s. P s.cache) (call {F = F} m)
  unfolding call
  Keeps-call P m = record { at = λ s h. h }

  accept-Own :
      (threshold : F) (k : String) (query : Text) (rows : List (Row F))
      → Own k (accept platform backend threshold k query rows)
  unfolding accept
  accept-Own threshold k query [] = tt
  accept-Own threshold k query (row ∷ rows) =
      if-branch (Own k) (platform.greater (default platform.one_float row.distance) threshold) _ _
        (λ far. tt) (λ near. refl)

  module _ (P : Cache F → Type 0) (k : String) (query : Text) where
    Gives-accept_rows :
        (rows : Option (List (Row F)))
        → Gives (λ s. P s.cache) (accept_rows platform backend k query rows) (Matched P k)
    unfolding accept_rows answer
    Gives-accept_rows none = record { at = λ s h. (tt, h) }
    Gives-accept_rows (some rows) = record {
      at = λ s h. (accept-Own s.cache.l2_threshold k query rows, h);
    }

    Gives-search_vector :
        (b : Backend F V W) (vector : Option V)
        → Gives (λ s. P s.cache) (search_vector platform backend b k query vector) (Matched P k)
    unfolding search_vector answer
    Gives-search_vector b none = record { at = λ s h. (tt, h) }
    Gives-search_vector b (some vector) =
        Gives-bind _ _ (Gives-Keeps _ (Keeps-call P (b.search vector))) Gives-accept_rows

    pub Gives-semantic_lookup :
        (b : Backend F V W)
        → Gives (λ s. P s.cache) (semantic_lookup platform backend b query k) (Matched P k)
    unfolding semantic_lookup
    Gives-semantic_lookup b =
        Gives-bind _ _ (Gives-Keeps _ (Keeps-call P (b.embed_single query))) (Gives-search_vector b)

    Keeps-search_vector :
        (b : Backend F V W) (vector : Option V)
        → Keeps (λ s. P s.cache) (search_vector platform backend b k query vector)
    unfolding search_vector accept_rows
    Keeps-search_vector b none = Keeps-answer _
    Keeps-search_vector b (some vector) =
        Keeps-bind _ _ (Keeps-call P (b.search vector)) (λ rows. Keeps-rows rows)
      where
        Keeps-rows :
            (rows : Option (List (Row F)))
            → Keeps (λ s. P s.cache) (accept_rows platform backend k query rows)
        Keeps-rows none = Keeps-answer _
        Keeps-rows (some rows) = Keeps-answer _

    pub Keeps-semantic_lookup :
        (b : Backend F V W) → Keeps (λ s. P s.cache) (semantic_lookup platform backend b query k)
    unfolding semantic_lookup
    Keeps-semantic_lookup b =
        Keeps-bind _ _ (Keeps-call P (b.embed_single query)) (Keeps-search_vector b)

    pub Keeps-store_semantic :
        (b : Option (Backend F V W)) (sql_text : String) (confidence : F) (domain : String)
        → Keeps
            (λ s. P s.cache)
            (store_semantic platform backend b k query sql_text confidence domain)
    unfolding store_semantic insert_vector
    Keeps-store_semantic none sql_text confidence domain = Keeps-answer _
    Keeps-store_semantic (some b) sql_text confidence domain =
        Keeps-bind _ _ (Keeps-call P (b.embed_single query)) Keeps-insert
      where
        Keeps-insert :
            (vector : Option V)
            → Keeps
                (λ s. P s.cache)
                (insert_vector platform backend b k query sql_text confidence domain vector)
        Keeps-insert none = Keeps-answer _
        Keeps-insert (some vector) = Keeps-bind _ _ (Keeps-call P _) (λ done. Keeps-answer _)
