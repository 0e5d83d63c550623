-- ===== src/Knowledge/Fusion/Members.antt =====
-- app/knowledge/retrieval/rrf_fusion.py: the fused documents and their identifiers.
use data_engineer.Prelude.{
  ◌≤◌, ℕ, ◌+◌, zero, suc, String, false, ap, ◌<◌, List, [], ◌∷◌, ◌≡◌, refl, arith, length, take,
  All, if-branch, eq_iff,
}
use data_engineer.Prelude.Dict.{mem, Distinct}
use data_engineer.Knowledge.Fusion.{
  FusedDoc, Floats, RrfFusion, RankMap, score_doc, score_docs, ranks_before, insert_doc, sort_docs,
}

abbrev pub ids : {F : Type 0} → List (FusedDoc F) → List String
ids [] = []
ids (d ∷ docs) = d.doc_id ∷ ids docs

module _ {F : Type 0} (floats : Floats F) where
  length-insert_doc :
      (a : FusedDoc F) (docs : List (FusedDoc F))
      → length (insert_doc floats a docs) ≡ length docs + 1
  unfolding insert_doc
  length-insert_doc a [] = omega arith
  length-insert_doc a (b ∷ docs) = ground (arith, length-insert_doc a docs)

  length-sort_docs : (docs : List (FusedDoc F)) → length (sort_docs floats docs) ≡ length docs
  unfolding sort_docs
  length-sort_docs [] = refl
  length-sort_docs (a ∷ docs) =
      omega (arith, length-insert_doc a (sort_docs floats docs), length-sort_docs docs)

  mem-insert_doc :
      (j : String) (a : FusedDoc F) (docs : List (FusedDoc F))
      → mem j (ids (insert_doc floats a docs)) ≡ mem j (a.doc_id ∷ ids docs)
  unfolding insert_doc
  mem-insert_doc j a [] = refl
  mem-insert_doc j a (b ∷ docs) = ground (arith, mem-insert_doc j a docs)

  pub mem-sort_docs :
      (j : String) (docs : List (FusedDoc F))
      → mem j (ids (sort_docs floats docs)) ≡ mem j (ids docs)
  unfolding sort_docs
  mem-sort_docs j [] = refl
  mem-sort_docs j (a ∷ docs) =
      ground (arith, mem-insert_doc j a (sort_docs floats docs), mem-sort_docs j docs)

  insert_doc-Distinct :
      (a : FusedDoc F) (docs : List (FusedDoc F))
      → mem a.doc_id (ids docs) ≡ false
      → Distinct (ids docs)
      → Distinct (ids (insert_doc floats a docs))
  unfolding insert_doc
  insert_doc-Distinct a [] h d = (refl, tt)
  insert_doc-Distinct a (b ∷ docs) h d = ground (
    arith,
    h,
    d,
    eq_iff a.doc_id b.doc_id,
    eq_iff b.doc_id a.doc_id,
    mem-insert_doc b.doc_id a docs,
    insert_doc-Distinct a docs,
  )

  pub sort_docs-Distinct :
      (docs : List (FusedDoc F)) → Distinct (ids docs) → Distinct (ids (sort_docs floats docs))
  unfolding sort_docs
  sort_docs-Distinct [] d = tt
  sort_docs-Distinct (a ∷ docs) d =
      insert_doc-Distinct a (sort_docs floats docs) (ground (arith, mem-sort_docs a.doc_id docs, d))
        (sort_docs-Distinct docs d.1)

  pub ids-score_docs :
      (fusion : RrfFusion F) (dense sparse : RankMap) (names : List String)
      → ids (score_docs floats fusion dense sparse names) ≡ names
  unfolding score_docs score_doc
  ids-score_docs fusion dense sparse [] = refl
  ids-score_docs fusion dense sparse (n ∷ names) = rw (ids-score_docs fusion dense sparse names)

  length-score_docs :
      (fusion : RrfFusion F) (dense sparse : RankMap) (names : List String)
      → length (score_docs floats fusion dense sparse names) ≡ length names
  unfolding score_docs
  length-score_docs fusion dense sparse [] = refl
  length-score_docs fusion dense sparse (n ∷ names) =
      omega (arith, length-score_docs fusion dense sparse names)

  All-insert_doc :
      (P : FusedDoc F → Type 0) (a : FusedDoc F) (docs : List (FusedDoc F))
      → P a
      → All P docs
      → All P (insert_doc floats a docs)
  unfolding insert_doc
  All-insert_doc P a [] p h = (p, tt)
  All-insert_doc P a (b ∷ docs) p h =
      if-branch (All P) (ranks_before floats b a) _ _
        (λ behind. (h.0, All-insert_doc P a docs p h.1)) (λ before. (p, h))

  pub All-sort_docs :
      (P : FusedDoc F → Type 0) (docs : List (FusedDoc F))
      → All P docs
      → All P (sort_docs floats docs)
  unfolding sort_docs
  All-sort_docs P [] h = tt
  All-sort_docs P (a ∷ docs) h =
      All-insert_doc P a (sort_docs floats docs) h.0 (All-sort_docs P docs h.1)

mem-ids-take :
    {F : Type 0} (j : String) (n : ℕ) (docs : List (FusedDoc F))
    → mem j (ids docs) ≡ false
    → mem j (ids (take n docs)) ≡ false
mem-ids-take j zero docs h = refl
mem-ids-take j (suc n) [] h = refl
mem-ids-take j (suc n) (d ∷ docs) h = ground (arith, h, mem-ids-take j n docs)

pub take-Distinct :
    {F : Type 0} (n : ℕ) (docs : List (FusedDoc F))
    → Distinct (ids docs)
    → Distinct (ids (take n docs))
take-Distinct zero docs d = tt
take-Distinct (suc n) [] d = tt
take-Distinct (suc n) (a ∷ docs) d = (mem-ids-take a.doc_id n docs d.0, take-Distinct n docs d.1)

pub All-take :
    {F : Type 0} (P : FusedDoc F → Type 0) (n : ℕ) (docs : List (FusedDoc F))
    → All P docs
    → All P (take n docs)
All-take P zero docs h = tt
All-take P (suc n) [] h = tt
All-take P (suc n) (d ∷ docs) h = (h.0, All-take P n docs h.1)

pub take_all : {A : Type 0} (n : ℕ) (xs : List A) → length (take n xs) < n → take n xs ≡ xs
take_all zero xs h = absurd (omega (arith, h))
take_all (suc n) [] h = refl
take_all (suc n) (x ∷ xs) h = ap (λ ys. x ∷ ys) (take_all n xs (omega (arith, h)))

pub take-take : {A : Type 0} (k m : ℕ) (xs : List A) → k ≤ m → take k xs ≡ take k (take m xs)
take-take zero m xs h = refl
take-take (suc k) zero xs h = absurd (omega (arith, h))
take-take (suc k) (suc m) [] h = refl
take-take (suc k) (suc m) (x ∷ xs) h = ap (λ ys. x ∷ ys) (take-take k m xs (omega (arith, h)))
