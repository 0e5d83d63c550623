-- ===== src/Knowledge/Fusion/Fused.antt =====
-- app/knowledge/retrieval/rrf_fusion.py: the results of a fusion.
use data_engineer.Prelude.{
  take, sym, eq_iff, ℕ, ◌+◌, String, Bool, true, false, Option, none, some, ap, ◌∙◌, ◌≤◌, ◌<◌,
  if◌then◌else◌, List, [], ◌∷◌, ◌≡◌, refl, arith, length, length-take, All,
}
use data_engineer.Prelude.Dict
use data_engineer.Prelude.Dict.{Dict, mem, contains, Distinct}
use data_engineer.Knowledge.Fusion.{
  Doc, FusedDoc, Floats, RrfFusion, build_rank_map, add_ids, compute_rrf, score_doc, score_docs,
  sort_docs, fuse,
}
use data_engineer.Knowledge.Fusion.Ranks.{
  first_rank, has_id, mem-add_ids, get-build_rank_map, build_rank_map-Distinct, add_ids-Distinct,
}
use data_engineer.Knowledge.Fusion.Ordered.{IsDescending, sort_docs-IsDescending}
use data_engineer.Knowledge.Fusion.Members.{
  ids, mem-sort_docs, sort_docs-Distinct, ids-score_docs, All-sort_docs, take-Distinct, All-take,
  take-take, take_all,
}

-- One of the results has the identifier.
abbrev pub occurs : String → List Doc → Bool
occurs j [] = false
occurs j (doc ∷ docs) = if has_id j doc.doc_id then true else occurs j docs

-- Whether there is a rank.
abbrev pub is_ranked : Option ℕ → Bool
is_ranked none = false
is_ranked (some rank) = true

is_ranked-first_rank :
    (j : String) (rank : ℕ) (docs : List Doc) → is_ranked (first_rank j rank docs) ≡ occurs j docs
is_ranked-first_rank j rank [] = refl
is_ranked-first_rank j rank (doc ∷ docs) = ground (arith, is_ranked-first_rank j (rank + 1) docs)

is_ranked-get : (j : String) (m : Dict ℕ) → contains j m ≡ is_ranked (Dict.get j m)
unfolding Dict.get
is_ranked-get j [] = refl
is_ranked-get j ((i, rank) ∷ m) = ground (arith, is_ranked-get j m)

contains-build_rank_map :
    (j : String) (docs : List Doc) → contains j (build_rank_map docs).0 ≡ occurs j docs
contains-build_rank_map j docs =
    is_ranked-get j (build_rank_map docs).0
    ∙ ap is_ranked (get-build_rank_map j docs)
    ∙ is_ranked-first_rank j 1 docs

module _ {F : Type 0} (floats : Floats F) (fusion : RrfFusion F) where
  -- The score of two ranks: alpha / (k + dense) + (1 - alpha) / (k + sparse), from 0.0, without the
  -- part of a ranking that has no such result.
  abbrev pub rrf_of : Option ℕ → Option ℕ → F
  rrf_of none none = floats.zero_float
  rrf_of (some d) none = floats.add floats.zero_float (floats.divide fusion.alpha (fusion.k + d))
  rrf_of none (some s) =
      floats.add floats.zero_float
        (floats.divide (floats.subtract floats.one_float fusion.alpha) (fusion.k + s))
  rrf_of (some d) (some s) =
      floats.add (floats.add floats.zero_float (floats.divide fusion.alpha (fusion.k + d)))
        (floats.divide (floats.subtract floats.one_float fusion.alpha) (fusion.k + s))

  compute_rrf-rrf_of : (d s : Option ℕ) → compute_rrf floats fusion d s ≡ rrf_of d s
  unfolding compute_rrf
  compute_rrf-rrf_of none none = refl
  compute_rrf-rrf_of (some d) none = refl
  compute_rrf-rrf_of none (some s) = refl
  compute_rrf-rrf_of (some d) (some s) = refl

module _ {F : Type 0} (floats : Floats F) (fusion : RrfFusion F)
    (dense_results sparse_results : List Doc) where
  -- The result is in one of the two lists, its ranks are the positions of its first occurrences
  -- there, and its score is the one of those.
  abbrev pub IsRanked : FusedDoc F → Type 0
  IsRanked d =
      (d.dense_rank ≡ first_rank d.doc_id 1 dense_results)
      × (d.sparse_rank ≡ first_rank d.doc_id 1 sparse_results)
      × (d.rrf_score
          ≡ rrf_of floats fusion (first_rank d.doc_id 1 dense_results)
              (first_rank d.doc_id 1 sparse_results))
      × ((if occurs d.doc_id dense_results then true else occurs d.doc_id sparse_results) ≡ true)

  -- Each of the names is an identifier of one of the two lists.
  abbrev Known : List String → Type 0
  Known names =
      (j : String)
      → mem j names ≡ true
      → (if occurs j dense_results then true else occurs j sparse_results) ≡ true

  Known-tail : (n : String) (names : List String) → Known (n ∷ names) → Known names
  Known-tail n names known = λ j m. known j (ground (arith, m))

  score_docs-IsRanked :
      (names : List String)
      → Known names
      → All IsRanked (
          score_docs floats fusion
            (build_rank_map dense_results)
            (build_rank_map sparse_results)
            names)
  unfolding score_docs score_doc
  score_docs-IsRanked [] known = tt
  score_docs-IsRanked (n ∷ names) known = (
    (
      get-build_rank_map n dense_results,
      get-build_rank_map n sparse_results,
      rw (get-build_rank_map n dense_results, get-build_rank_map n sparse_results)
          (compute_rrf-rrf_of floats fusion (first_rank n 1 dense_results)
            (first_rank n 1 sparse_results)),
      known n (ground (arith, eq_iff n n)),
    ),
    score_docs-IsRanked names (Known-tail n names known),
  )

  abbrev union : List String
  union = add_ids (build_rank_map dense_results).0 (build_rank_map sparse_results).0

  abbrev scored : List (FusedDoc F)
  scored =
      score_docs floats fusion (build_rank_map dense_results) (build_rank_map sparse_results) union

  union-Distinct : Distinct union
  union-Distinct =
      add_ids-Distinct (build_rank_map dense_results).0 (build_rank_map sparse_results).0
        (build_rank_map-Distinct dense_results) (build_rank_map-Distinct sparse_results)

  mem-union :
      (j : String)
      → mem j union ≡ (if occurs j dense_results then true else occurs j sparse_results)
  mem-union j = ground (
    arith,
    mem-add_ids j (build_rank_map dense_results).0 (build_rank_map sparse_results).0,
    contains-build_rank_map j dense_results,
    contains-build_rank_map j sparse_results,
  )

  mem-scored :
      (j : String)
      → mem j (ids (sort_docs floats scored))
        ≡ (if occurs j dense_results then true else occurs j sparse_results)
  mem-scored j =
      mem-sort_docs floats j scored
      ∙ ap (mem j) (
          ids-score_docs floats fusion (build_rank_map dense_results)
            (build_rank_map sparse_results) union)
      ∙ mem-union j

  -- Of two scores, at most one is the greater. Then the results are at most `top_k`; no identifier
  -- stands twice; each is one of either list, and carries the positions of its first occurrences in
  -- the two lists and the score of those; and each has a greater score than the next, or neither score is greater and its
  -- identifier is not the later one. A greater `top_k` adds results only behind these.
  pub fuse-IsRanked :
      (top_k : ℕ)
      → ((x y : F) → floats.greater x y ≡ true → floats.greater y x ≡ false)
      → (length (fuse floats fusion dense_results sparse_results top_k) ≤ top_k)
        × Distinct (ids (fuse floats fusion dense_results sparse_results top_k))
        × All IsRanked (fuse floats fusion dense_results sparse_results top_k)
        × IsDescending floats (fuse floats fusion dense_results sparse_results top_k)
        × ((more : ℕ)
            → fuse floats fusion dense_results sparse_results top_k
              ≡ take top_k (fuse floats fusion dense_results sparse_results (top_k + more)))
  unfolding fuse
  fuse-IsRanked top_k asym = (
    omega (arith, length-take top_k (sort_docs floats scored)),
    take-Distinct top_k (sort_docs floats scored) (
        sort_docs-Distinct floats scored (
          rw
            (ids-score_docs floats fusion (build_rank_map dense_results)
              (build_rank_map sparse_results) union)
            union-Distinct)),
    All-take IsRanked top_k (sort_docs floats scored) (
        All-sort_docs floats IsRanked scored
          (score_docs-IsRanked union (λ j m. sym (mem-union j) ∙ m))),
    sort_docs-IsDescending floats top_k scored asym,
    λ more. take-take top_k (top_k + more) (sort_docs floats scored) (omega arith),
  )

  -- If there are fewer than `top_k` results, their identifiers are exactly those of the two lists.
  pub mem-fuse :
      (top_k : ℕ) (j : String)
      → length (fuse floats fusion dense_results sparse_results top_k) < top_k
      → mem j (ids (fuse floats fusion dense_results sparse_results top_k))
        ≡ (if occurs j dense_results then true else occurs j sparse_results)
  unfolding fuse
  mem-fuse top_k j h =
      ap (λ docs. mem j (ids docs)) (take_all top_k (sort_docs floats scored) h) ∙ mem-scored j
