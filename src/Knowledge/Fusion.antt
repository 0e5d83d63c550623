-- ===== src/Knowledge/Fusion.antt =====
-- app/knowledge/retrieval/rrf_fusion.py: the fusion of a dense and a sparse ranking. A result is its
-- `doc_id`, if it has one, and its other fields; floats are a parameter.
pub mod Ranks
pub mod Members
pub mod Ordered
pub mod Fused
use data_engineer.Prelude.{
  ℕ, ◌+◌, zero, suc, String, Bool, true, false, not, ◌&&◌, ◌||◌, Option, none, some, List, [], ◌∷◌,
  ◌++◌, ◌==◌, take, if◌then◌else◌,
}
use data_engineer.Prelude.Dict
use data_engineer.Prelude.Dict.{Dict, contains, keys, merge}
use data_engineer.Prelude.Value.{Value}
use data_engineer.Prelude.Sorted.{text_before}

pub record Doc : Type 0 where
  pub doc_id : Option String
  pub fields : Dict Value

pub record FusedDoc (F : Type 0) : Type 0 where
  pub doc_id : String
  pub fields : Dict Value
  pub rrf_score : F
  pub dense_rank : Option ℕ
  pub sparse_rank : Option ℕ

pub record Floats (F : Type 0) : Type 0 where
  pub zero_float : F
  pub one_float : F
  pub add : F → F → F
  pub subtract : F → F → F
  pub divide : F → ℕ → F
  pub greater : F → F → Bool

pub record RrfFusion (F : Type 0) : Type 0 where
  pub k : ℕ
  pub alpha : F

-- `none` is the ValueError.
unfoldable pub create : {F : Type 0} → Floats F → ℕ → F → Option (RrfFusion F)
create floats k alpha =
    if k == 0 || floats.greater floats.zero_float alpha || floats.greater alpha floats.one_float
    then none
    else some (record { k = k; alpha = alpha })

abbrev pub RankMap : Type 0
RankMap = Dict ℕ × Dict (Dict Value)

unfoldable pub enter : ℕ → Option String → Dict Value → RankMap → RankMap
enter rank none fields p = p
enter rank (some doc_id) fields p =
    if contains doc_id p.0 then p else (Dict.put doc_id rank p.0, Dict.put doc_id fields p.1)

-- `enumerate(results, start=rank)`
unfoldable pub build_from : ℕ → List Doc → RankMap → RankMap
unfolding enter
build_from rank [] p = p
build_from rank (doc ∷ docs) p = build_from (rank + 1) docs (enter rank doc.doc_id doc.fields p)

unfoldable pub build_rank_map : List Doc → RankMap
unfolding build_from
build_rank_map results = build_from 1 results ([], [])

-- The union of the two sets of identifiers, in some order.
unfoldable pub add_ids : Dict ℕ → Dict ℕ → List String
add_ids dense [] = keys dense
add_ids dense ((doc_id, rank) ∷ sparse) =
    let rest = add_ids dense sparse in if contains doc_id dense then rest else doc_id ∷ rest

unfoldable pub merge_doc : Option (Dict Value) → Option (Dict Value) → Dict Value
unfolding merge
merge_doc (some primary) none = merge [] primary
merge_doc (some primary) (some secondary) = merge secondary primary
merge_doc none (some secondary) = secondary
merge_doc none none = []

module _ {F : Type 0} (floats : Floats F) where
  abbrev pub dense_part : RrfFusion F → Option ℕ → F → F
  dense_part fusion none score = score
  dense_part fusion (some rank) score =
      floats.add score (floats.divide fusion.alpha (fusion.k + rank))

  abbrev pub sparse_part : RrfFusion F → Option ℕ → F → F
  sparse_part fusion none score = score
  sparse_part fusion (some rank) score =
      floats.add score
        (floats.divide (floats.subtract floats.one_float fusion.alpha) (fusion.k + rank))

  unfoldable pub compute_rrf : RrfFusion F → Option ℕ → Option ℕ → F
  compute_rrf fusion dense_rank sparse_rank =
      sparse_part fusion sparse_rank (dense_part fusion dense_rank floats.zero_float)

  unfoldable pub score_doc : RrfFusion F → RankMap → RankMap → String → FusedDoc F
  unfolding compute_rrf merge_doc
  score_doc fusion dense sparse doc_id =
      let d_rank = Dict.get doc_id dense.0 in
      let s_rank = Dict.get doc_id sparse.0 in
      record {
        doc_id = doc_id;
        fields = merge_doc (Dict.get doc_id dense.1) (Dict.get doc_id sparse.1);
        rrf_score = compute_rrf fusion d_rank s_rank;
        dense_rank = d_rank;
        sparse_rank = s_rank;
      }

  unfoldable pub score_docs : RrfFusion F → RankMap → RankMap → List String → List (FusedDoc F)
  unfolding score_doc
  score_docs fusion dense sparse [] = []
  score_docs fusion dense sparse (doc_id ∷ ids) =
      score_doc fusion dense sparse doc_id ∷ score_docs fusion dense sparse ids

  -- `(-a.rrf_score, a.doc_id) < (-b.rrf_score, b.doc_id)`
  unfoldable pub ranks_before : FusedDoc F → FusedDoc F → Bool
  ranks_before a b =
      floats.greater a.rrf_score b.rrf_score
      || (not (floats.greater b.rrf_score a.rrf_score) && text_before a.doc_id b.doc_id)

  unfoldable pub insert_doc : FusedDoc F → List (FusedDoc F) → List (FusedDoc F)
  unfolding ranks_before
  insert_doc a [] = a ∷ []
  insert_doc a (b ∷ docs) =
      let rest = insert_doc a docs in if ranks_before b a then b ∷ rest else a ∷ b ∷ docs

  unfoldable pub sort_docs : List (FusedDoc F) → List (FusedDoc F)
  unfolding insert_doc
  sort_docs [] = []
  sort_docs (a ∷ docs) = insert_doc a (sort_docs docs)

  unfoldable pub fuse : RrfFusion F → List Doc → List Doc → ℕ → List (FusedDoc F)
  unfolding build_rank_map add_ids score_docs sort_docs
  fuse fusion dense_results sparse_results top_k =
      let dense = build_rank_map dense_results in
      let sparse = build_rank_map sparse_results in
      take top_k (sort_docs (score_docs fusion dense sparse (add_ids dense.0 sparse.0)))
