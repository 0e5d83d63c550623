-- ===== src/Llm/Budget/Reserve.antt =====
-- app/llm/budget.py: what one reservation, and a sequence of them, does to the budgets.
use data_engineer.Prelude.{
  ℕ, suc, ◌+◌, ◌≤◌, ◌<◌, ◌≡◌, inl, inr, ◌⊎◌, refl, Bool, true, false, Option, none, some, List, [],
  ◌∷◌, not, any, arith, ◌==◌, Bool-cases, Option-cases, ◌∙◌, sym, if◌then◌else◌,
}
use data_engineer.Harness.Constraint.{ConstraintEnforcer, can_call_llm, record_llm_call}
use data_engineer.Llm.Budget.{Heap, member, dedup, budgets, record_all, reserve_llm_call}

abbrev pub used : Heap → ℕ → ℕ
used h r = (h r).llm_call_count

abbrev pub limit : Heap → ℕ → ℕ
limit h r = (h r).limits.max_llm_calls_per_query

-- The budget is the query's, or one of the callers'.
abbrev pub in_scope : ℕ → Option ℕ → List ℕ → Bool
in_scope r none limits = member r limits
in_scope r (some query) limits = member r (query ∷ limits)

-- No reference stands twice.
abbrev Once : List ℕ → Type 0
Once [] = Unit
Once (r ∷ rs) = (member r rs ≡ false) × Once rs

member-dedup :
    (j : ℕ) (seen rs : List ℕ)
    → member j (dedup seen rs) ≡ (if member j seen then false else member j rs)
unfolding dedup
member-dedup j seen [] = ground arith
member-dedup j seen (r ∷ rs) = ground (arith, member-dedup j seen rs, member-dedup j (r ∷ seen) rs)

dedup-Once : (seen rs : List ℕ) → Once (dedup seen rs)
unfolding dedup
dedup-Once seen [] = tt
dedup-Once seen (r ∷ rs) = elim (Bool-cases (member r seen)) [
  | inl old ↦ rw old (dedup-Once seen rs)
  | inr new ↦ rw new (ground (arith, member-dedup r (r ∷ seen) rs), dedup-Once (r ∷ seen) rs)
]

member-budgets : (r : ℕ) (q : Option ℕ) (ls : List ℕ) → member r (budgets q ls) ≡ in_scope r q ls
unfolding budgets
member-budgets r none ls = member-dedup r [] ls
member-budgets r (some q) ls = member-dedup r [] (q ∷ ls)

budgets-Once : (q : Option ℕ) (ls : List ℕ) → Once (budgets q ls)
unfolding budgets
budgets-Once none ls = dedup-Once [] ls
budgets-Once (some q) ls = dedup-Once [] (q ∷ ls)

used-record_all :
    (rs : List ℕ) (h : Heap) (r : ℕ)
    → Once rs
    → used (record_all rs h) r ≡ (if member r rs then used h r + 1 else used h r)
unfolding record_all record_llm_call
used-record_all [] h r o = refl
used-record_all (s ∷ rs) h r o =
    ground (arith, used-record_all rs (λ j. if j == s then record_llm_call (h s) else h j) r o.1)

limits-record_all : (rs : List ℕ) (h : Heap) (r : ℕ) → (record_all rs h r).limits ≡ (h r).limits
unfolding record_all record_llm_call
limits-record_all [] h r = refl
limits-record_all (s ∷ rs) h r =
    ground (arith, limits-record_all rs (λ j. if j == s then record_llm_call (h s) else h j) r)

can_call_of_member :
    (h : Heap) (rs : List ℕ) (r : ℕ)
    → any (λ s. not (can_call_llm (h s))) rs ≡ false
    → member r rs ≡ true
    → can_call_llm (h r) ≡ true
can_call_of_member h [] r a m = ground arith
can_call_of_member h (s ∷ rs) r a m = ground (arith, can_call_of_member h rs r)

granted_cases :
    (q : Option ℕ) (ls : List ℕ) (h h' : Heap)
    → reserve_llm_call q ls h ≡ some h'
    → (any (λ r. not (can_call_llm (h r))) (budgets q ls) ≡ false)
      × (record_all (budgets q ls) h ≡ h')
unfolding reserve_llm_call
granted_cases q ls h h' e = elim (Bool-cases (any (λ r. not (can_call_llm (h r))) (budgets q ls))) [
  | inl full ↦ absurd (ground arith)
  | inr room ↦ (room, ground arith)
]

-- A granted reservation counts exactly one call in each budget that is in scope, also in one that
-- is both the query's and a caller's, and none in the others; and each budget in scope had a call
-- left.
pub reserve_llm_call-granted :
    (q : Option ℕ) (ls : List ℕ) (h h' : Heap) (r : ℕ)
    → reserve_llm_call q ls h ≡ some h'
    → (used h' r ≡ (if in_scope r q ls then used h r + 1 else used h r))
      × ((h' r).limits ≡ (h r).limits)
      × (in_scope r q ls ≡ true → can_call_llm (h r) ≡ true)
reserve_llm_call-granted q ls h h' r e =
    let (room, final) = granted_cases q ls h h' e in
    (
      rw (← final, used-record_all, budgets-Once q ls, member-budgets),
      rw (← final, limits-record_all),
      λ m. can_call_of_member h (budgets q ls) r room (member-budgets r q ls ∙ m),
    )

-- Requests in order, each with its own scope; a refused one leaves every budget as it is.
pub reserve_many : List (Option ℕ × List ℕ) → Heap → Heap
reserve_many [] h = h
reserve_many ((q, ls) ∷ rest) h = elim (reserve_llm_call q ls h) [
  | none ↦ reserve_many rest h
  | some h' ↦ reserve_many rest h'
]

-- How many of the requests were granted while the budget was in scope.
pub grants : ℕ → List (Option ℕ × List ℕ) → Heap → ℕ
grants r [] h = 0
grants r ((q, ls) ∷ rest) h = elim (reserve_llm_call q ls h) [
  | none ↦ grants r rest h
  | some h' ↦ if in_scope r q ls then suc (grants r rest h') else grants r rest h'
]

can_call→lt :
    (c : ConstraintEnforcer)
    → can_call_llm c ≡ true
    → c.llm_call_count < c.limits.max_llm_calls_per_query
unfolding can_call_llm
can_call→lt c e = ground arith

-- However many requests share a budget, and whatever other budgets they stand in, its counter is
-- the number of calls that were granted under it, and it never passes its limit.
pub reserve_many_bounded :
    (requests : List (Option ℕ × List ℕ)) (h : Heap) (r : ℕ)
    → used h r ≤ limit h r
    → (used (reserve_many requests h) r ≡ used h r + grants r requests h)
      × (used h r + grants r requests h ≤ limit h r)
unfolding reserve_many grants
reserve_many_bounded [] h r b = (omega arith, omega arith)
reserve_many_bounded ((q, ls) ∷ rest) h r b = elim (Option-cases (reserve_llm_call q ls h)) [
  | inl refused ↦ ground (arith, reserve_many_bounded rest h r b)
  | inr (h', granted) ↦ ground (
    arith,
    reserve_llm_call-granted q ls h h' r granted,
    reserve_many_bounded rest h' r,
    can_call→lt (h r),
  )
]

cannot_call→le :
    (c : ConstraintEnforcer)
    → can_call_llm c ≡ false
    → c.limits.max_llm_calls_per_query ≤ c.llm_call_count
unfolding can_call_llm
cannot_call→le c e = ground arith

-- One of the budgets is used up.
abbrev Full : List ℕ → Heap → Type 0
Full rs h = (r : ℕ) × (member r rs ≡ true) × (limit h r ≤ used h r)

Full-later : (s : ℕ) (rs : List ℕ) (h : Heap) → Full rs h → Full (s ∷ rs) h
Full-later s rs h (r, m, full) = (r, ground (arith, m), full)

any-Full : (h : Heap) (rs : List ℕ) → any (λ r. not (can_call_llm (h r))) rs ≡ true → Full rs h
any-Full h [] e = absurd (ground (arith, e))
any-Full h (s ∷ rs) e = elim (Bool-cases (can_call_llm (h s))) [
  | inl room ↦ Full-later s rs h (any-Full h rs (ground (arith, e, room)))
  | inr full ↦ (s, ground arith, cannot_call→le (h s) full)
]

-- A reservation is refused and some budget in scope has used up its limit, or it is granted and each
-- budget in scope was below its limit.
pub reserve_llm_call_cases :
    (q : Option ℕ) (ls : List ℕ) (h : Heap)
    → ((r : ℕ) × (in_scope r q ls ≡ true)
        × (limit h r ≤ used h r)
        × (reserve_llm_call q ls h ≡ none))
      ⊎ ((h' : Heap) × (reserve_llm_call q ls h ≡ some h')
          × ((r : ℕ) → in_scope r q ls ≡ true → used h r < limit h r))
unfolding reserve_llm_call
reserve_llm_call_cases q ls h =
    elim (Bool-cases (any (λ r. not (can_call_llm (h r))) (budgets q ls))) [
      | inl refused ↦
          let (r, m, full) = any-Full h (budgets q ls) refused in
          inl (r, sym (member-budgets r q ls) ∙ m, full, rw refused refl)
      | inr room ↦ inr (
        record_all (budgets q ls) h,
        rw room refl,
        λ r m.
            can_call→lt (h r)
              (can_call_of_member h (budgets q ls) r room (member-budgets r q ls ∙ m)),
      )
    ]
