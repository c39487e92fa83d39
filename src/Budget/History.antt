-- ===== src/Budget/History.antt =====
-- `BudgetHistory` of src/kernel.cpp: the rows of a subject in two vectors, oldest first, and the branch
-- of `Store::Impl::budget` that searches them. Admission times are not negative in the model.
use cogg_cpp.Base.{
  ℕ, suc, ◌-◌, List, [], ◌∷◌, ◌++◌, ◌==◌, Bool, true, false, ltb, leb, if◌then◌else◌, length, take,
  get_elem?, Option, none, some, Result, ok, require, ◌>>=◌, ◌>>◌,
}
use cogg_cpp.Budget.{Config, Admission, Usage, Budget, after_lower, budget_of}

pub record BudgetHistory : Type 0 where
  pub seq : List ℕ
  pub at : List ℕ

abbrev pub not_before : Option ℕ → ℕ → Bool
not_before none at = true
not_before (some last) at = leb last at

-- The loop of `verify_impl` that fills the vectors, in the order of `seq`: the first of a list of
-- admissions is the newest, and comes last.
unfoldable pub history_of : List Admission → Result BudgetHistory
history_of [] = ok (record { seq = []; at = [] })
history_of (a ∷ rest) = do
  h ← history_of rest
  require (not_before (get_elem? h.at (length h.at - 1)) a.at) "nonmonotonic admission clock"
  ok (record { seq = h.seq ++ a.seq ∷ []; at = h.at ++ a.at ∷ [] })

-- std::upper_bound: the place of the first value that is above the bound.
unfoldable pub upper_bound : (ℕ → Bool) → List ℕ → ℕ
upper_bound above [] = 0
upper_bound above (x ∷ xs) = if above x then 0 else suc (upper_bound above xs)

abbrev pub above_through : Option ℕ → ℕ → Bool
above_through none seq = false
above_through (some through) seq = ltb through seq

-- The value at an index; one that is out of range, which the source does not read, gives 0.
abbrev pub value_of : Option ℕ → ℕ
value_of none = 0
value_of (some n) = n

-- What the branch on `history` leaves in used, last, watermark and quota_source.
unfoldable pub usage_history : Config → ℕ → Option ℕ → BudgetHistory → Usage
unfolding upper_bound
usage_history c now through h =
    let end = upper_bound (above_through through) h.seq in
    let begin = upper_bound (after_lower now c.period_ms) (take end h.at) in
    let used = end - begin in
    record {
      used = used;
      last = if end == 0 then none else get_elem? h.at (end - 1);
      watermark = if end == 0 then 0 else value_of (get_elem? h.seq (end - 1));
      quota_source =
          if leb c.max_attempts used then get_elem? h.at (end - c.max_attempts) else none;
    }

unfoldable pub budget_history : Config → ℕ → Option ℕ → BudgetHistory → Result Budget
unfolding usage_history budget_of
budget_history c now through h = budget_of c now (usage_history c now through h)
