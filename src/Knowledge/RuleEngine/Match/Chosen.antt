-- ===== src/Knowledge/RuleEngine/Match/Chosen.antt =====
-- app/knowledge/rule_engine.py: which rules `match` chooses, and in which order.
use data_engineer.Prelude.{
  ℕ, ◌+◌, String, Bool, true, false, Option, some, List, [], ◌∷◌, ◌≡◌, ◌≢◌, refl, arith, eq_iff,
  ◌⊎◌, inl, inr, ◌∙◌, not, ◌&&◌, str_eq, Bool-cases, if◌then◌else◌,
}
use data_engineer.Prelude.Dict
use data_engineer.Prelude.Dict.{Dict, Distinct, keys, or_else, get-merge, contains-get}
use data_engineer.Prelude.Sorted.{text_before, text_before-asym}
use data_engineer.Knowledge.RuleEngine.{BusinessRule, RuleEngine, rules_of, get, get_in}
use data_engineer.Knowledge.RuleEngine.Match.{
  Engine, RuleMatch, candidates, domain_candidates, match, match_rule, match_pattern, match_rules,
  precedes, insert_match, sort,
}

-- A global rule hides the domain's rule with the same identifier from `match`; a lookup by
-- identifier prefers the domain's.
pub candidates-get :
    (domain : String) (rule_id : String) (e : RuleEngine)
    → domain ≢ ""
    → Distinct (keys e.global)
    → Distinct (keys (rules_of e domain))
    → (Dict.get rule_id (candidates (some domain) e)
        ≡ or_else (Dict.get rule_id e.global) (Dict.get rule_id (rules_of e domain)))
      × (get rule_id (some domain) e
          ≡ or_else (Dict.get rule_id (rules_of e domain)) (Dict.get rule_id e.global))
unfolding candidates domain_candidates get get_in rules_of Dict.get
candidates-get domain rule_id e named global_distinct distinct = (
  ground (
    arith,
    named,
    eq_iff domain "",
    get-merge rule_id (domain_candidates (some domain) e) e.global global_distinct,
    get-merge rule_id [] (rules_of e domain) distinct,
    contains-get domain e.domain_rules,
  ),
  ground (arith, named, eq_iff domain ""),
)

module _ {F : Type 0} (engine : Engine F) where
  -- The first has the greater score; or neither has, and its identifier is not the later one.
  abbrev pub Above : RuleMatch F → RuleMatch F → Type 0
  Above a b =
      (engine.greater a.score b.score ≡ true)
      ⊎ ((engine.greater a.score b.score ≡ false)
          × (engine.greater b.score a.score ≡ false)
          × (text_before b.rule.id a.rule.id ≡ false))

  -- Each match stands above the next.
  abbrev pub IsDescending : List (RuleMatch F) → Type 0
  IsDescending [] = Unit
  IsDescending (a ∷ []) = Unit
  IsDescending (a ∷ b ∷ ms) = Above a b × IsDescending (b ∷ ms)

  not_precedes-Above : (a b : RuleMatch F) → precedes engine b a ≡ false → Above a b
  unfolding precedes
  not_precedes-Above a b h = elim (Bool-cases (engine.greater a.score b.score)) [
    | inl more ↦ inl more
    | inr no_more ↦ inr (no_more, ground (arith, h, no_more), ground (arith, h, no_more))
  ]

  abbrev IsOrdered : List (RuleMatch F) → Type 0
  IsOrdered [] = Unit
  IsOrdered (a ∷ []) = Unit
  IsOrdered (a ∷ b ∷ ms) = (precedes engine b a ≡ false) × IsOrdered (b ∷ ms)

  IsOrdered-IsDescending : (ms : List (RuleMatch F)) → IsOrdered ms → IsDescending ms
  IsOrdered-IsDescending [] h = tt
  IsOrdered-IsDescending (a ∷ []) h = tt
  IsOrdered-IsDescending (a ∷ b ∷ ms) h =
      (not_precedes-Above a b h.0, IsOrdered-IsDescending (b ∷ ms) h.1)

  precedes_asym :
      (a b : RuleMatch F)
      → ((x y : F) → engine.greater x y ≡ true → engine.greater y x ≡ false)
      → precedes engine a b ≡ true
      → precedes engine b a ≡ false
  unfolding precedes
  precedes_asym a b asym h =
      ground
        (arith, asym a.score b.score, asym b.score a.score, text_before-asym a.rule.id b.rule.id, h)

  insert_match-IsOrdered :
      (a : RuleMatch F) (ms : List (RuleMatch F))
      → ((x y : F) → engine.greater x y ≡ true → engine.greater y x ≡ false)
      → IsOrdered ms
      → IsOrdered (insert_match engine a ms)
  unfolding insert_match
  insert_match-IsOrdered a [] asym h = tt
  insert_match-IsOrdered a (b ∷ []) asym h = ground (arith, precedes_asym b a asym)
  insert_match-IsOrdered a (b ∷ c ∷ ms) asym h =
      ground (arith, precedes_asym b a asym, insert_match-IsOrdered a (c ∷ ms) asym h.1, h)

  sort-IsOrdered :
      (ms : List (RuleMatch F))
      → ((x y : F) → engine.greater x y ≡ true → engine.greater y x ≡ false)
      → IsOrdered (sort engine ms)
  unfolding sort
  sort-IsOrdered [] asym = tt
  sort-IsOrdered (a ∷ ms) asym =
      insert_match-IsOrdered a (sort engine ms) asym (sort-IsOrdered ms asym)

  -- How many matches have a property.
  abbrev pub tally : (RuleMatch F → Bool) → List (RuleMatch F) → ℕ
  tally p [] = 0
  tally p (m ∷ ms) = (if p m then 1 else 0) + tally p ms

  tally-insert_match :
      (p : RuleMatch F → Bool) (a : RuleMatch F) (ms : List (RuleMatch F))
      → tally p (insert_match engine a ms) ≡ tally p (a ∷ ms)
  unfolding insert_match
  tally-insert_match p a [] = refl
  tally-insert_match p a (b ∷ ms) = ground (arith, tally-insert_match p a ms)

  tally-sort :
      (p : RuleMatch F → Bool) (ms : List (RuleMatch F)) → tally p (sort engine ms) ≡ tally p ms
  unfolding sort
  tally-sort p [] = refl
  tally-sort p (a ∷ ms) = ground (arith, tally-insert_match p a (sort engine ms), tally-sort p ms)

  -- The match of a rule, and whether it is one: the rule has a pattern, and its score is above zero
  -- and reaches the threshold.
  abbrev pub match_of : String → BusinessRule → RuleMatch F
  match_of text rule = record {
    rule = rule;
    score = (match_pattern engine rule.pattern text).0;
    matched_groups = (match_pattern engine rule.pattern text).1;
  }

  abbrev pub is_chosen : String → F → BusinessRule → Bool
  is_chosen text threshold rule =
      not (str_eq rule.pattern "")
      && engine.greater (match_of text rule).score engine.zero_float
      && engine.at_least (match_of text rule).score threshold

  -- How many rules of a dictionary match and have a property.
  abbrev pub hits : (RuleMatch F → Bool) → String → F → Dict BusinessRule → ℕ
  hits p text threshold [] = 0
  hits p text threshold ((rule_id, rule) ∷ m) =
      (if is_chosen text threshold rule && p (match_of text rule) then 1 else 0)
      + hits p text threshold m

  tally-match_rules :
      (p : RuleMatch F → Bool) (text : String) (threshold : F) (m : Dict BusinessRule)
      → tally p (match_rules engine text threshold m) ≡ hits p text threshold m
  unfolding match_rules match_rule
  tally-match_rules p text threshold [] = refl
  tally-match_rules p text threshold ((rule_id, rule) ∷ m) =
      ground (arith, tally-match_rules p text threshold m)

  -- Of the matches, each has a greater score than the next, or neither score is greater and its
  -- identifier is not the later one; and they are the rules of the candidates with a pattern, a
  -- score above zero and no less than the threshold, each as often.
  pub match-IsDescending :
      (text : String) (domain : Option String) (threshold : F) (e : RuleEngine)
      → ((x y : F) → engine.greater x y ≡ true → engine.greater y x ≡ false)
      → IsDescending (match engine text domain threshold e)
        × ((p : RuleMatch F → Bool)
            → tally p (match engine text domain threshold e)
              ≡ hits p text threshold (candidates domain e))
  unfolding match
  match-IsDescending text domain threshold e asym =
      let chosen = match_rules engine text threshold (candidates domain e) in
      (
        IsOrdered-IsDescending (sort engine chosen) (sort-IsOrdered chosen asym),
        λ p. tally-sort p chosen ∙ tally-match_rules p text threshold (candidates domain e),
      )
