-- ===== src/Tests/Budgets.antt =====
-- The theorem on the two ways to count admissions, applied to four rows, of which one is above the
-- watermark and one has left the window.
use cogg_cpp.Base.{◌≡◌, refl, List, [], ◌∷◌, some, ok, arith}
use cogg_cpp.Budget.{Admission, budget}
use cogg_cpp.Budget.History.{BudgetHistory, history_of, budget_history}
use cogg_cpp.Budget.Filled.{IsFalling}
use cogg_cpp.Budget.Equivalent.{budget_history-budget}
use cogg_cpp.Tests.{sample_config}

abbrev four_rows : List Admission
four_rows =
    record { seq = 9; at = 1900 }
    ∷ record { seq = 7; at = 1500 }
    ∷ record { seq = 4; at = 1400 }
    ∷ record { seq = 2; at = 200 }
    ∷ []

abbrev four_row_history : BudgetHistory
four_row_history = record { seq = 2 ∷ 4 ∷ 7 ∷ 9 ∷ []; at = 200 ∷ 1400 ∷ 1500 ∷ 1900 ∷ [] }

four_rows-IsFalling : IsFalling four_rows
four_rows-IsFalling = (
  (omega arith, (omega arith, (omega arith, tt))),
  ((omega arith, (omega arith, tt)), ((omega arith, tt), (tt, tt))),
)

four_rows_filled : history_of four_rows ≡ ok four_row_history
unfolding history_of
four_rows_filled = refl

budget_history-budget_example :
    budget_history sample_config 1600 (some 8) four_row_history
    ≡ budget sample_config 1600 (some 8) four_rows
budget_history-budget_example =
    budget_history-budget sample_config 1600 (some 8) four_rows four_row_history (omega arith)
      four_rows-IsFalling four_rows_filled
