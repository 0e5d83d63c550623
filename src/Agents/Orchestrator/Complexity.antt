-- ===== src/Agents/Orchestrator/Complexity.antt =====
-- app/agents/orchestrator.py: `TaskBreakdown` and `_analyze_complexity`.
use data_engineer.Prelude.{String, Bool, true, false, List, [], ◌∷◌, ◌||◌}
use data_engineer.Prelude.Value.{Value}

pub record TaskBreakdown : Type 0 where
  pub original_query : String
  pub subtasks : List Value
  pub complexity : String
  pub collaboration_mode : String
  pub reason : String

abbrev breakdown : String → String → String → String → TaskBreakdown
breakdown query_text complexity mode reason = record {
  original_query = query_text;
  subtasks = [];
  complexity = complexity;
  collaboration_mode = mode;
  reason = reason;
}

abbrev multi_step_patterns : List String
multi_step_patterns =
    "然后|再|接着|之后|然后|第二步|第三步" ∷ "first.*then|after.*then|step\\s*\\d|next.*then"
    ∷ "分别|各自|separately|respectively|each" ∷ []

abbrev ambiguity_patterns : List String
ambiguity_patterns =
    "或者|还是|要么|不确定|大概|也许|可能" ∷ "or maybe|either|not sure|perhaps|maybe|approximately" ∷ []

abbrev complex_patterns : List String
complex_patterns =
    "\\bjoin\\b|\\bcte\\b|\\bwindow\\b|子查询|嵌套|窗口函数|递归"
    ∷ "\\bgroup\\s+by\\b.*\\bhaving\\b|\\bpartition\\b|\\bover\\b"
    ∷ "对比|比较|同比|环比|vs|versus|compared?\\s+to" ∷ "排名|排行|前\\d+|top\\s*\\d+|rank|dense_rank" ∷ []

abbrev medium_patterns : List String
medium_patterns =
    "\\bjoin\\b|关联|联合" ∷ "\\bgroup\\s+by\\b|分组|汇总|统计|sum|avg|count"
    ∷ "趋势|变化|走势|trend|monthly|daily|weekly" ∷ []

-- The choice, by whether the patterns of several steps, of ambiguity, of complex and of medium
-- queries match.
abbrev pub classify : Bool → Bool → Bool → Bool → String → TaskBreakdown
classify true ambiguous complex medium query_text =
    breakdown query_text "multi_step" "multi_step" "Multiple sequential steps detected"
classify false true complex medium query_text =
    breakdown query_text "ambiguous" "negotiation"
      "Ambiguity markers detected — negotiation recommended"
classify false false true medium query_text =
    breakdown query_text "complex" "parallel_debate"
      "Complex query patterns detected — parallel debate recommended"
classify false false false true query_text =
    breakdown query_text "medium" "pipeline" "Medium complexity — standard pipeline"
classify false false false false query_text =
    breakdown query_text "simple" "pipeline" "Simple query — standard pipeline"

-- `lower` is `str.lower`, and `search pattern text` tells whether `re.search` finds a match.
module _ (lower : String → String) (search : String → String → Bool) where
  unfoldable pub any_match : String → List String → Bool
  any_match qt [] = false
  any_match qt (p ∷ ps) = search p qt || any_match qt ps

  unfoldable pub analyze_complexity : String → TaskBreakdown
  unfolding any_match
  analyze_complexity query_text =
      classify (any_match (lower query_text) multi_step_patterns)
        (any_match (lower query_text) ambiguity_patterns)
        (any_match (lower query_text) complex_patterns)
        (any_match (lower query_text) medium_patterns) query_text
