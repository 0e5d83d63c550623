-- ===== src/Cache/Entry.antt =====
-- app/cache/query_cache.py: the data of the cache, and the normal form of a question. A text is the
-- list of its code points.
use data_engineer.Prelude.{ℕ, String, Bool, Option, List, [], ◌∷◌, ◌++◌, if◌then◌else◌}
use data_engineer.Prelude.Dict.{Dict}
use data_engineer.Prelude.Text.{is_space}
use data_engineer.Prelude.Exec.{Exec}

abbrev pub Text : Type 0
Text = List ℕ

pub data MatchLevel : Type 0 where
  exact semantic : MatchLevel

-- `F` is the type of floats.
pub record CachedQuery (F : Type 0) : Type 0 where
  pub cache_id : String
  pub query : Text
  pub sql_text : String
  pub confidence : F
  pub domain : String
  pub hit_count : ℕ
  pub match_level : MatchLevel
  pub similarity : F

-- A row that the vector store returns; a column may be missing.
pub record Row (F : Type 0) : Type 0 where
  pub distance : Option F
  pub sql_text : Option String
  pub confidence : Option F
  pub domain : Option String

pub record StoredPair (F V : Type 0) : Type 0 where
  pub cache_id : String
  pub query : Text
  pub sql_text : String
  pub confidence : F
  pub domain : String
  pub vector : V

-- The embedding generator and the vector store, which act on a world `W`; `V` are vectors.
pub record Backend (F V W : Type 0) : Type 0 where
  pub embed_single : Text → Exec W V
  pub search : V → Exec W (List (Row F))
  pub insert : StoredPair F V → Exec W (Unit {0})

-- What the cache takes from the platform: floats, `str.lower` and SHA-256. A text
-- holds no lone surrogate, so that it has a UTF-8 encoding to hash.
pub record Platform (F : Type 0) : Type 0 where
  pub zero_float : F
  pub one_float : F
  -- `a > b`
  pub greater : F → F → Bool
  -- `round(1.0 - distance, 6)`
  pub similarity_of : F → F
  pub to_lower : Text → Text
  pub sha256 : Text → String

pub record Cache (F : Type 0) : Type 0 where
  pub l1 : Dict (CachedQuery F)
  pub l1_max_size : ℕ
  pub l2_threshold : F
  pub l1_hits : ℕ
  pub l2_hits : ℕ
  pub misses : ℕ

-- The cache and the world that its backend acts on.
pub record State (F W : Type 0) : Type 0 where
  pub cache : Cache F
  pub world : W

-- `text.split()`: the maximal runs of code points that are not white space. `word` is the run that
-- is being read, in order.
abbrev flush : Text → List Text → List Text
flush [] words = words
flush (c ∷ cs) words = (c ∷ cs) ∷ words

unfoldable pub split : Text → Text → List Text
unfolding is_space
split word [] = flush word []
split word (c ∷ cs) =
    let cut = flush word (split [] cs) in
    let grow = split (word ++ c ∷ []) cs in if is_space c then cut else grow

-- `" ".join(words)`
unfoldable pub join : List Text → Text
join [] = []
join (w ∷ []) = w
join (w ∷ w' ∷ ws) = w ++ 32 ∷ join (w' ∷ ws)

-- `text.strip()`
abbrev strip_start : Text → Text
strip_start [] = []
strip_start (c ∷ cs) = if is_space c then strip_start cs else c ∷ cs

abbrev put_before : ℕ → Text → Text
put_before c [] = if is_space c then [] else c ∷ []
put_before c (d ∷ ds) = c ∷ d ∷ ds

abbrev strip_end : Text → Text
strip_end [] = []
strip_end (c ∷ cs) = put_before c (strip_end cs)

unfoldable pub strip : Text → Text
unfolding is_space
strip text = strip_end (strip_start text)
