-- ===== src/Knowledge/RuleEngine/Match.antt =====
-- app/knowledge/rule_engine.py: matching of the rules against a question, and the directives of the
-- rules that match. A text is measured in code points; `re` and floats are parameters.
pub mod Chosen
use data_engineer.Prelude.{
  ℕ, ◌+◌, ◌-◌, max, zero, suc, String, Bool, true, false, Option, none, some, List, [], ◌∷◌, ◌++◌,
  map, not, ◌&&◌, ◌||◌, leb, ltb, ◌==◌, length, if◌then◌else◌, str_eq,
}
use data_engineer.Prelude.Dict
use data_engineer.Prelude.Dict.{Dict, contains, merge}
use data_engineer.Prelude.Text.{codes}
use data_engineer.Prelude.Sorted.{text_before}
use data_engineer.Knowledge.RuleEngine.{BusinessRule, RuleEngine, rules_of}

-- A match of a regular expression: `start()`, `end()` and `groups()`.
pub record Found : Type 0 where
  pub start : ℕ
  pub end_ : ℕ
  pub groups : List (Option String)

-- What matching takes from the platform: `re.compile(pattern, re.IGNORECASE).finditer(text)`, which
-- is `none` where `re.compile` raises `re.error`, and floats.
pub record Engine (F : Type 0) : Type 0 where
  pub finditer : String → String → Option (List Found)
  pub zero_float : F
  -- `round(min(a / b, 1.0), 4)`
  pub coverage : ℕ → ℕ → F
  pub greater : F → F → Bool
  -- `a >= b`, which is no negation of `b > a` where one of them is a NaN
  pub at_least : F → F → Bool

pub record RuleMatch (F : Type 0) : Type 0 where
  pub rule : BusinessRule
  pub score : F
  pub matched_groups : List String

-- `covered.add(i)`
unfoldable pub mark : ℕ → List ℕ → List ℕ
mark i covered = if marked covered then covered else i ∷ covered
  where
    marked : List ℕ → Bool
    marked [] = false
    marked (j ∷ js) = j == i || marked js

-- `for i in range(first, first + count): if i < len(text): covered.add(i)`
unfoldable pub mark_range : ℕ → ℕ → ℕ → List ℕ → List ℕ
unfolding mark
mark_range size first zero covered = covered
mark_range size first (suc count) covered =
    mark_range size (first + 1) count (if ltb first size then mark first covered else covered)

unfoldable pub mark_all : ℕ → List Found → List ℕ → List ℕ
unfolding mark_range
mark_all size [] covered = covered
mark_all size (m ∷ ms) covered =
    mark_all size ms (mark_range size m.start (m.end_ - m.start) covered)

abbrev pub present : List (Option String) → List String
present [] = []
present (none ∷ gs) = present gs
present (some g ∷ gs) = g ∷ present gs

unfoldable pub all_groups : List Found → List String
all_groups [] = []
all_groups (m ∷ ms) = present m.groups ++ all_groups ms

module _ {F : Type 0} (engine : Engine F) where
  unfoldable pub score_of : String → Option (List Found) → F × List String
  unfolding mark_all all_groups
  score_of text none = (engine.zero_float, [])
  score_of text (some []) = (engine.zero_float, [])
  score_of text (some (m ∷ ms)) =
      let size = length (codes text) in
      (engine.coverage (length (mark_all size (m ∷ ms) [])) (max size 1), all_groups (m ∷ ms))

  unfoldable pub match_pattern : String → String → F × List String
  unfolding score_of
  match_pattern pattern text = score_of text (engine.finditer pattern text)

-- `candidates.update(d_rules)` for each domain.
unfoldable pub merge_all : Dict BusinessRule → Dict (Dict BusinessRule) → Dict BusinessRule
unfolding merge
merge_all candidates [] = candidates
merge_all candidates ((domain, rules) ∷ m) = merge_all (merge candidates rules) m

-- The candidates of the scopes below the global one.
unfoldable pub domain_candidates : Option String → RuleEngine → Dict BusinessRule
unfolding rules_of merge_all
domain_candidates none e = merge_all [] e.domain_rules
domain_candidates (some domain) e =
    if not (str_eq domain "") && contains domain e.domain_rules
    then merge [] (rules_of e domain)
    else []

unfoldable pub candidates : Option String → RuleEngine → Dict BusinessRule
unfolding domain_candidates
candidates domain e = merge (domain_candidates domain e) e.global

module _ {F : Type 0} (engine : Engine F) where
  -- `score > 0.0 and score >= threshold`
  abbrev pub is_match : F → F → Bool
  is_match threshold score =
      engine.greater score engine.zero_float && engine.at_least score threshold

  unfoldable pub match_rule : String → F → BusinessRule → List (RuleMatch F)
  unfolding match_pattern
  match_rule text threshold rule =
      let (score, groups) = match_pattern engine rule.pattern text in
      if str_eq rule.pattern ""
      then []
      else if is_match threshold score
      then record { rule = rule; score = score; matched_groups = groups } ∷ []
      else []

  unfoldable pub match_rules : String → F → Dict BusinessRule → List (RuleMatch F)
  unfolding match_rule
  match_rules text threshold [] = []
  match_rules text threshold ((rule_id, rule) ∷ m) =
      match_rule text threshold rule ++ match_rules text threshold m

  -- `(-a.score, a.rule.id) < (-b.score, b.rule.id)`
  unfoldable pub precedes : RuleMatch F → RuleMatch F → Bool
  precedes a b =
      engine.greater a.score b.score
      || (not (engine.greater b.score a.score) && text_before a.rule.id b.rule.id)

  -- A stable sort: an equal key stays behind.
  unfoldable pub insert_match : RuleMatch F → List (RuleMatch F) → List (RuleMatch F)
  unfolding precedes
  insert_match a [] = a ∷ []
  insert_match a (b ∷ bs) =
      let rest = insert_match a bs in if precedes b a then b ∷ rest else a ∷ b ∷ bs

  unfoldable pub sort : List (RuleMatch F) → List (RuleMatch F)
  unfolding insert_match
  sort [] = []
  sort (a ∷ rest) = insert_match a (sort rest)

  unfoldable pub match : String → Option String → F → RuleEngine → List (RuleMatch F)
  unfolding candidates match_rules sort
  match text domain threshold e = sort (match_rules text threshold (candidates domain e))

  unfoldable pub match_best : String → Option String → F → RuleEngine → Option (RuleMatch F)
  unfolding match
  match_best text domain threshold e = first (match text domain threshold e)
    where
      first : List (RuleMatch F) → Option (RuleMatch F)
      first [] = none
      first (m ∷ ms) = some m
