-- ===== src/Knowledge/Fusion/Ordered.antt =====
-- app/knowledge/retrieval/rrf_fusion.py: the order of the fused results.
use data_engineer.Prelude.{
  ℕ, zero, suc, true, false, List, [], ◌∷◌, ◌≡◌, ◌⊎◌, inl, inr, arith, take, Bool-cases,
}
use data_engineer.Prelude.Sorted.{text_before, text_before-asym}
use data_engineer.Knowledge.Fusion.{FusedDoc, Floats, ranks_before, insert_doc, sort_docs}

module _ {F : Type 0} (floats : Floats F) where
  -- The first has the greater score; or neither has, and its identifier is not the later one.
  abbrev pub Above : FusedDoc F → FusedDoc F → Type 0
  Above a b =
      (floats.greater a.rrf_score b.rrf_score ≡ true)
      ⊎ ((floats.greater a.rrf_score b.rrf_score ≡ false)
          × (floats.greater b.rrf_score a.rrf_score ≡ false)
          × (text_before b.doc_id a.doc_id ≡ false))

  -- Each result stands above the next.
  abbrev pub IsDescending : List (FusedDoc F) → Type 0
  IsDescending [] = Unit
  IsDescending (a ∷ []) = Unit
  IsDescending (a ∷ b ∷ docs) = Above a b × IsDescending (b ∷ docs)

  abbrev IsOrdered : List (FusedDoc F) → Type 0
  IsOrdered [] = Unit
  IsOrdered (a ∷ []) = Unit
  IsOrdered (a ∷ b ∷ docs) = (ranks_before floats b a ≡ false) × IsOrdered (b ∷ docs)

  not_ranks_before-Above : (a b : FusedDoc F) → ranks_before floats b a ≡ false → Above a b
  unfolding ranks_before
  not_ranks_before-Above a b h = elim (Bool-cases (floats.greater a.rrf_score b.rrf_score)) [
    | inl more ↦ inl more
    | inr no_more ↦ inr (no_more, ground (arith, h, no_more), ground (arith, h, no_more))
  ]

  IsOrdered-IsDescending : (docs : List (FusedDoc F)) → IsOrdered docs → IsDescending docs
  IsOrdered-IsDescending [] h = tt
  IsOrdered-IsDescending (a ∷ []) h = tt
  IsOrdered-IsDescending (a ∷ b ∷ docs) h =
      (not_ranks_before-Above a b h.0, IsOrdered-IsDescending (b ∷ docs) h.1)

  ranks_before_asym :
      (a b : FusedDoc F)
      → ((x y : F) → floats.greater x y ≡ true → floats.greater y x ≡ false)
      → ranks_before floats a b ≡ true
      → ranks_before floats b a ≡ false
  unfolding ranks_before
  ranks_before_asym a b asym h = ground (
    arith,
    asym a.rrf_score b.rrf_score,
    asym b.rrf_score a.rrf_score,
    text_before-asym a.doc_id b.doc_id,
    h,
  )

  insert_doc-IsOrdered :
      (a : FusedDoc F) (docs : List (FusedDoc F))
      → ((x y : F) → floats.greater x y ≡ true → floats.greater y x ≡ false)
      → IsOrdered docs
      → IsOrdered (insert_doc floats a docs)
  unfolding insert_doc
  insert_doc-IsOrdered a [] asym h = tt
  insert_doc-IsOrdered a (b ∷ []) asym h = ground (arith, ranks_before_asym b a asym)
  insert_doc-IsOrdered a (b ∷ c ∷ docs) asym h =
      ground (arith, ranks_before_asym b a asym, insert_doc-IsOrdered a (c ∷ docs) asym h.1, h)

  sort_docs-IsOrdered :
      (docs : List (FusedDoc F))
      → ((x y : F) → floats.greater x y ≡ true → floats.greater y x ≡ false)
      → IsOrdered (sort_docs floats docs)
  unfolding sort_docs
  sort_docs-IsOrdered [] asym = tt
  sort_docs-IsOrdered (a ∷ docs) asym =
      insert_doc-IsOrdered a (sort_docs floats docs) asym (sort_docs-IsOrdered docs asym)

  take-IsDescending :
      (n : ℕ) (docs : List (FusedDoc F)) → IsDescending docs → IsDescending (take n docs)
  take-IsDescending zero docs h = tt
  take-IsDescending (suc n) [] h = tt
  take-IsDescending (suc zero) (a ∷ docs) h = tt
  take-IsDescending (suc (suc n)) (a ∷ []) h = tt
  take-IsDescending (suc (suc n)) (a ∷ b ∷ docs) h = (h.0, take-IsDescending (suc n) (b ∷ docs) h.1)

  pub sort_docs-IsDescending :
      (n : ℕ) (docs : List (FusedDoc F))
      → ((x y : F) → floats.greater x y ≡ true → floats.greater y x ≡ false)
      → IsDescending (take n (sort_docs floats docs))
  sort_docs-IsDescending n docs asym =
      take-IsDescending n (sort_docs floats docs)
        (IsOrdered-IsDescending (sort_docs floats docs) (sort_docs-IsOrdered docs asym))
