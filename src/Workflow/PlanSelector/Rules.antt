-- ===== src/Workflow/PlanSelector/Rules.antt =====
-- app/workflow/plan_selector.py: the table of the rules of the first layer, in their order.
use data_engineer.Prelude.{String, List, [], ◌∷◌}

pub record Rule : Type 0 where
  pub plan_id : String
  pub pattern : String
  pub reason : String

abbrev pub default_plan : String
default_plan = "gensql_agentic"

abbrev agentic : String → String → Rule
agentic pattern reason = record { plan_id = "gensql_agentic"; pattern = pattern; reason = reason }

abbrev ez : String → String → Rule
ez pattern reason = record { plan_id = "ez_query"; pattern = pattern; reason = reason }

abbrev pub l1_rules : List Rule
l1_rules =
    agentic "(?i)\\bJOIN\\b" "query contains JOIN — needs schema linking"
    ∷ agentic "(?i)\\bGROUP\\s+BY\\b" "aggregation with GROUP BY — needs validation"
    ∷ agentic "(?i)\\bHAVING\\b" "HAVING clause — needs full pipeline"
    ∷ agentic "(?i)\\bUNION\\b|\\bINTERSECT\\b|\\bEXCEPT\\b" "set operation — needs full validation"
    ∷ agentic "(?i)\\bSUBQUERY\\b|\\b子查询\\b|\\(\\s*SELECT\\b" "subquery — needs full pipeline"
    ∷ agentic "(?i)\\bCASE\\s+WHEN\\b|\\bWINDOW\\b|\\bOVER\\s*\\(|ROW_NUMBER|RANK\\s*\\(|DENSE_RANK"
        "window function or CASE expression — needs full pipeline"
    ∷ agentic "[一-鿿]*?(?:关联|多表|跨表|联合|连接)[一-鿿]*"
        "Chinese keyword indicating join/multi-table — needs schema linking"
    ∷ agentic "[一-鿿]*?(?:复杂|分析|对比|比较|同比|环比|占比)[一-鿿]*"
        "Chinese keyword indicating complex analysis — needs full pipeline"
    ∷ ez "(?i)^(?:SELECT\\s+)?\\*\\s+FROM\\s+[\\w一-鿿]+\\s*$"
        "simple SELECT * (no aggregation, no join)"
    ∷ ez "(?i)^(?:SELECT\\s+)?[\\w一-鿿]+(,\\s*[\\w一-鿿]+)*\\s+FROM\\s+[\\w一-鿿]+\\s*$"
        "simple column list, single table, no filter"
    ∷ ez "(?i)^(?:查看|显示|列出|show|list|display|get)\\s*[\\w一-鿿]+" "simple list/display request"
    ∷ ez "(?i)^(?:SELECT\\s+)?COUNT\\(\\*\\)" "simple COUNT(*) query"
    ∷ ez "(?i)^\\s*(?:什么|哪个|多少|怎么|how|what|which|when|who)" "simple question — likely ez_query"
    ∷ []
