-- ===== src/Core/SelfHeal/Classes.antt =====
-- app/core/self_heal.py: every error falls into one class.
use data_engineer.Prelude.{ℕ, ◌+◌, String, List, [], ◌∷◌, ◌≡◌, arith, length, length-append}
use data_engineer.Core.SelfHeal.{
  ErrorAnalysis, total_errors, classify, classify_all, analyse_errors, no_errors,
}

module _ (to_upper : String → List ℕ) where
  total_errors-classify :
      (err : String) (a : ErrorAnalysis)
      → total_errors (classify to_upper err a) ≡ total_errors a + 1
  unfolding classify total_errors
  total_errors-classify err a = ground (
    arith,
    length-append a.syntax_errors (err ∷ []),
    length-append a.schema_errors (err ∷ []),
    length-append a.type_errors (err ∷ []),
    length-append a.execution_errors (err ∷ []),
    length-append a.unknown_errors (err ∷ []),
  )

  total_errors-classify_all :
      (errors : List String) (a : ErrorAnalysis)
      → total_errors (classify_all to_upper errors a) ≡ total_errors a + length errors
  unfolding classify_all
  total_errors-classify_all [] a = omega arith
  total_errors-classify_all (err ∷ errors) a = omega (
    arith,
    total_errors-classify_all errors (classify to_upper err a),
    total_errors-classify err a,
  )

  -- The classes hold each error once.
  pub total_errors-analyse_errors :
      (errors : List String) → total_errors (analyse_errors to_upper errors) ≡ length errors
  unfolding analyse_errors total_errors
  total_errors-analyse_errors errors = omega (arith, total_errors-classify_all errors no_errors)
