-- ===== src/Knowledge/Fusion/Ranks.antt =====
-- app/knowledge/retrieval/rrf_fusion.py: a rank is the position of the first occurrence.
use data_engineer.Prelude.{
  ℕ, ◌+◌, String, Bool, true, false, Option, none, some, List, [], ◌∷◌, ◌≡◌, arith, str_eq, eq_iff,
  if◌then◌else◌,
}
use data_engineer.Prelude.Dict
use data_engineer.Prelude.Dict.{
  Dict, contains, keys, mem, Distinct, get-put, contains-get, get_none-contains, or_else,
  put-Distinct,
}
use data_engineer.Prelude.Value.{Value}
use data_engineer.Knowledge.Fusion.{Doc, RankMap, enter, build_from, build_rank_map, add_ids}

abbrev pub has_id : String → Option String → Bool
has_id doc_id none = false
has_id doc_id (some j) = str_eq j doc_id

-- The position of the first result with an identifier, counted from `rank`.
abbrev pub first_rank : String → ℕ → List Doc → Option ℕ
first_rank doc_id rank [] = none
first_rank doc_id rank (doc ∷ docs) =
    if has_id doc_id doc.doc_id then some rank else first_rank doc_id (rank + 1) docs

get-enter :
    (j : String) (rank : ℕ) (doc_id : Option String) (fields : Dict Value) (p : RankMap)
    → Dict.get j (enter rank doc_id fields p).0
      ≡ or_else (Dict.get j p.0) (if has_id j doc_id then some rank else none)
unfolding enter
get-enter j rank none fields p = ground arith
get-enter j rank (some i) fields p =
    ground (arith, eq_iff i j, get-put j i rank p.0, contains-get i p.0, get_none-contains i p.0)

get-build_from :
    (j : String) (rank : ℕ) (docs : List Doc) (p : RankMap)
    → Dict.get j (build_from rank docs p).0 ≡ or_else (Dict.get j p.0) (first_rank j rank docs)
unfolding build_from
get-build_from j rank [] p = ground arith
get-build_from j rank (doc ∷ docs) p = ground (
  arith,
  get-build_from j (rank + 1) docs (enter rank doc.doc_id doc.fields p),
  get-enter j rank doc.doc_id doc.fields p,
)

pub get-build_rank_map :
    (j : String) (docs : List Doc) → Dict.get j (build_rank_map docs).0 ≡ first_rank j 1 docs
unfolding build_rank_map Dict.get
get-build_rank_map j docs = get-build_from j 1 docs ([], [])

enter-Distinct :
    (rank : ℕ) (doc_id : Option String) (fields : Dict Value) (p : RankMap)
    → Distinct (keys p.0)
    → Distinct (keys (enter rank doc_id fields p).0)
unfolding enter
enter-Distinct rank none fields p d = d
enter-Distinct rank (some i) fields p d = ground (arith, d, put-Distinct i rank p.0 d)

build_from-Distinct :
    (rank : ℕ) (docs : List Doc) (p : RankMap)
    → Distinct (keys p.0)
    → Distinct (keys (build_from rank docs p).0)
unfolding build_from
build_from-Distinct rank [] p d = d
build_from-Distinct rank (doc ∷ docs) p d =
    build_from-Distinct (rank + 1) docs (enter rank doc.doc_id doc.fields p)
      (enter-Distinct rank doc.doc_id doc.fields p d)

pub build_rank_map-Distinct : (docs : List Doc) → Distinct (keys (build_rank_map docs).0)
unfolding build_rank_map
build_rank_map-Distinct docs = build_from-Distinct 1 docs ([], []) tt

-- The union has the members of both.
pub mem-add_ids :
    (j : String) (dense sparse : Dict ℕ)
    → mem j (add_ids dense sparse) ≡ (if contains j dense then true else contains j sparse)
unfolding add_ids
mem-add_ids j dense [] = ground arith
mem-add_ids j dense ((i, rank) ∷ sparse) = ground (arith, eq_iff i j, mem-add_ids j dense sparse)

pub add_ids-Distinct :
    (dense sparse : Dict ℕ)
    → Distinct (keys dense)
    → Distinct (keys sparse)
    → Distinct (add_ids dense sparse)
unfolding add_ids
add_ids-Distinct dense [] d e = d
add_ids-Distinct dense ((i, rank) ∷ sparse) d e =
    ground (arith, mem-add_ids i dense sparse, add_ids-Distinct dense sparse d e.1, e)
