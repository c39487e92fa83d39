-- ===== src/Budget/Filled.antt =====
-- What the loop of `verify_impl` in src/kernel.cpp fills a `BudgetHistory` with.
use cogg_cpp.Base.{
  ◌-◌, ◌≤◌, ◌<◌, ◌≡◌, sym, ap, ◌∙◌, List, [], ◌∷◌, ◌++◌, true, length, get_elem?, All, All-weaken,
  subst, ok, ok-injective, >>=-eq-ok, require-bind, arith,
}
use cogg_cpp.Budget.{Admission}
use cogg_cpp.Budget.History.{BudgetHistory, not_before, history_of}
use cogg_cpp.Budget.Searches.{back}
use cogg_cpp.Budget.Vectors.{back-newest, IsMonotonic}

-- Newest first, by their sequence numbers.
abbrev pub IsFalling : List Admission → Type 0
IsFalling [] = Unit {0}
IsFalling (a ∷ rest) = All (λ b. b.seq < a.seq) rest × IsFalling rest

-- The vectors hold the rows, whose times the loop has compared.
pub history_of-IsMonotonic :
    (rows : List Admission) (h : BudgetHistory)
    → IsFalling rows
    → history_of rows ≡ ok h
    → (h ≡ record { seq = back (λ a. a.seq) rows; at = back (λ a. a.at) rows }) × IsMonotonic rows
unfolding history_of
history_of-IsMonotonic [] h f e = (sym (ok-injective (record { seq = []; at = [] }) h e), tt)
history_of-IsMonotonic (a ∷ rest) h (seqs, f) e =
    let (old, filled, e) = >>=-eq-ok (history_of rest) _ e in
    let (q, e) =
      require-bind (not_before (get_elem? old.at (length old.at - 1)) a.at)
        "nonmonotonic admission clock" _ e in
    let (same, sorted) = history_of-IsMonotonic rest old f filled in
    (
      sym (ok-injective (record { seq = old.seq ++ a.seq ∷ []; at = old.at ++ a.at ∷ [] }) h e)
          ∙ ap (λ x. record { seq = x.seq ++ a.seq ∷ []; at = x.at ++ a.at ∷ [] }) same,
      (
        seqs,
        times rest sorted
            (subst (λ x. not_before (get_elem? x.at (length x.at - 1)) a.at ≡ true) same q),
        sorted,
      ),
    )
  where
    times :
        (rows : List Admission)
        → IsMonotonic rows
        → not_before (get_elem? (back (λ x. x.at) rows) (length (back (λ x. x.at) rows) - 1)) a.at
          ≡ true
        → All (λ b. b.at ≤ a.at) rows
    times [] m q = tt
    times (b ∷ rows) (s, t, m) q =
        let le : b.at ≤ a.at = ground (arith, q, back-newest (λ x. x.at) b rows) in
        (le, All-weaken rows (λ x k. omega (arith, k, le)) t)
