-- ===== src/Budget/Equivalent.antt =====
-- The two branches of `Store::Impl::budget` of src/kernel.cpp agree.
use cogg_cpp.Base.{
  ℕ, suc, ◌+◌, ◌-◌, ◌<◌, ◌≡◌, refl, sym, ap, ◌∙◌, inl, inr, Option, none, some, List, [], ◌∷◌, ◌==◌,
  Bool, true, not, leb, Bool-cases, length, keep, take, get_elem?, if◌then◌else◌, Result, ok,
  length-keep-le, arith, ◌⊎◌, require_row, ◌>>=◌,
}
use cogg_cpp.Budget.{
  Admission, Config, Usage, after_lower, last_row, row_at, order_rows, budget, budget_of, usage_sql,
}
use cogg_cpp.Budget.History.{
  value_of, BudgetHistory, history_of, upper_bound, above_through, usage_history, budget_history,
}
use cogg_cpp.Budget.Window.{last_row-newest}
use cogg_cpp.Budget.Searches.{back, upper_bound-back, take-back, get_elem-take}
use cogg_cpp.Budget.Vectors.{
  row_at-below, get_elem-back, row_at-keep, IsMonotonic, order_rows-IsMonotonic, keep-IsMonotonic,
  seen-Falls, window-Falls, keep-through, length-keep-not,
}
use cogg_cpp.Budget.Filled.{history_of-IsMonotonic, IsFalling}

abbrev vectors : List Admission → BudgetHistory
vectors rows = record { seq = back (λ a. a.seq) rows; at = back (λ a. a.at) rows }

-- What the branch reads, from the two places it has searched for.
abbrev usage_at : Config → BudgetHistory → ℕ → ℕ → Usage
usage_at c h end begin = record {
  used = end - begin;
  last = if end == 0 then none else get_elem? h.at (end - 1);
  watermark = if end == 0 then 0 else value_of (get_elem? h.seq (end - 1));
  quota_source =
      if leb c.max_attempts (end - begin) then get_elem? h.at (end - c.max_attempts) else none;
}

-- The statements, over the rows that are seen.
abbrev usage_of_seen : Config → ℕ → List Admission → Result Usage
usage_of_seen c now seen =
    let window = keep (λ a. after_lower now c.period_ms a.at) seen in
    let used = length window in
    let tail = last_row seen in
    let last : Option ℕ = elim tail [ none ↦ none | some a ↦ some a.at ] in
    let watermark : ℕ = elim tail [ none ↦ 0 | some a ↦ a.seq ] in
    if leb c.max_attempts used
    then require_row (row_at (c.max_attempts - 1) (order_rows window)) "budget source missing"
      >>= (λ kth.
          ok (record {
            used = used;
            last = last;
            watermark = watermark;
            quota_source = some kth.at;
          }))
    else ok (record { used = used; last = last; watermark = watermark; quota_source = none })

abbrev seen_of : Option ℕ → List Admission → List Admission
seen_of through rows = keep (λ a. not (above_through through a.seq)) rows

abbrev window_of : Config → ℕ → List Admission → List Admission
window_of c now seen = keep (λ a. after_lower now c.period_ms a.at) seen

module _ (c : Config) (now : ℕ) (through : Option ℕ) (rows : List Admission)
    (m : IsMonotonic rows) where
  end_lem :
      upper_bound (above_through through) (back (λ a. a.seq) rows) ≡ length (seen_of through rows)
  end_lem = omega (
    arith,
    upper_bound-back (above_through through) (λ a. a.seq) rows (seen-Falls through rows m),
    length-keep-not (λ a. above_through through a.seq) rows,
  )

  begin_lem :
      upper_bound (after_lower now c.period_ms) (back (λ a. a.at) (seen_of through rows))
        + length (window_of c now (seen_of through rows))
      ≡ length (seen_of through rows)
  begin_lem =
      upper_bound-back (after_lower now c.period_ms) (λ a. a.at) (seen_of through rows)
        (window-Falls now c.period_ms (seen_of through rows)
          (keep-IsMonotonic (λ a. not (above_through through a.seq)) rows m))

  usage_history-at :
      (begin : ℕ) × (begin + length (window_of c now (seen_of through rows))
        ≡ length (seen_of through rows))
      × (usage_history c now through (vectors rows)
          ≡ usage_at c (vectors rows) (length (seen_of through rows)) begin)
  unfolding usage_history
  usage_history-at = (
    upper_bound (after_lower now c.period_ms) (back (λ a. a.at) (seen_of through rows)),
    begin_lem,
    ap
          (λ n.
            usage_at c (vectors rows) n
              (upper_bound (after_lower now c.period_ms) (take n (back (λ a. a.at) rows))))
          end_lem
        ∙ ap
            (λ xs.
              usage_at c (vectors rows) (length (seen_of through rows))
                (upper_bound (after_lower now c.period_ms) xs))
            (take-back (λ a. above_through through a.seq) (λ a. a.at) rows
              (seen-Falls through rows m)),
  )

  -- What stands in a vector below the place of the watermark is what the rows that are seen hold.
  seen_elem :
      (f : Admission → ℕ) (k i : ℕ) (a : Admission)
      → i + suc k ≡ length (seen_of through rows)
      → row_at k (seen_of through rows) ≡ some a
      → get_elem? (back f rows) i ≡ some (f a)
  seen_elem f k i a h e =
      sym (get_elem-take (length (seen_of through rows)) i (back f rows) (omega (arith, h)))
      ∙ ap (λ xs. get_elem? xs i)
          (take-back (λ a. above_through through a.seq) f rows (seen-Falls through rows m))
      ∙ get_elem-back f k i (seen_of through rows) a h e

  -- The source of the quota is the same row.
  source_lem :
      0 < c.max_attempts
      → leb c.max_attempts (length (window_of c now (seen_of through rows))) ≡ true
      → (a : Admission) × (row_at
            (c.max_attempts - 1)
            (order_rows (window_of c now (seen_of through rows)))
          ≡ some a)
        × (get_elem? (back (λ x. x.at) rows) (length (seen_of through rows) - c.max_attempts)
            ≡ some a.at)
  source_lem h full =
      let seen = seen_of through rows in
      let sorted : IsMonotonic seen =
        keep-IsMonotonic (λ a. not (above_through through a.seq)) rows m in
      let fits = length-keep-le (λ a. after_lower now c.period_ms a.at) seen in
      let (a, e) = row_at-below (c.max_attempts - 1) seen (ground (arith, h, full, fits)) in
      (
        a,
        ap (row_at (c.max_attempts - 1)) (
              order_rows-IsMonotonic (window_of c now seen)
                (keep-IsMonotonic (λ x. after_lower now c.period_ms x.at) seen sorted))
            ∙ row_at-keep (λ x. after_lower now c.period_ms x.at) (c.max_attempts - 1) seen
                (window-Falls now c.period_ms seen sorted) (ground (arith, h, full))
            ∙ e,
        seen_elem (λ x. x.at) (c.max_attempts - 1) (length seen - c.max_attempts) a
            (ground (arith, h, full, fits)) e,
      )

  tail_lem :
      let seen = seen_of through rows in
      (last_row seen ≡ none × (length seen ≡ 0))
      ⊎ ((a : Admission) × (last_row seen ≡ some a)
          × (0 < length seen)
          × (get_elem? (back (λ x. x.at) rows) (length seen - 1) ≡ some a.at)
          × (get_elem? (back (λ x. x.seq) rows) (length seen - 1) ≡ some a.seq))
  unfolding last_row row_at
  tail_lem =
      newest (seen_of through rows)
        (keep-IsMonotonic (λ a. not (above_through through a.seq)) rows m)
        (λ f a h e. seen_elem f 0 (length (seen_of through rows) - 1) a (omega (arith, h)) e)
    where
      newest :
          (seen : List Admission)
          → IsMonotonic seen
          → ((f : Admission → ℕ) (a : Admission)
              → 0 < length seen
              → row_at 0 seen ≡ some a
              → get_elem? (back f rows) (length seen - 1) ≡ some (f a))
          → (last_row seen ≡ none × (length seen ≡ 0))
            ⊎ ((a : Admission) × (last_row seen ≡ some a)
                × (0 < length seen)
                × (get_elem? (back (λ x. x.at) rows) (length seen - 1) ≡ some a.at)
                × (get_elem? (back (λ x. x.seq) rows) (length seen - 1) ≡ some a.seq))
      newest [] s look = inl (refl, refl)
      newest (a ∷ rest) (seqs, ats, s) look = inr (
        a,
        last_row-newest a rest seqs,
        omega arith,
        look (λ x. x.at) a (omega arith) refl,
        look (λ x. x.seq) a (omega arith) refl,
      )

  usage_lem :
      0 < c.max_attempts
      → usage_sql c now through rows ≡ ok (usage_history c now through (vectors rows))
  unfolding usage_sql
  usage_lem h =
      let (begin, sum, e) = usage_history-at in
      ap (usage_of_seen c now) (keep-through through rows) ∙ same begin sum ∙ ap ok (sym e)
    where
      same :
          (begin : ℕ)
          → begin + length (window_of c now (seen_of through rows)) ≡ length (seen_of through rows)
          → usage_of_seen c now (seen_of through rows)
            ≡ ok (usage_at c (vectors rows) (length (seen_of through rows)) begin)
      same begin sum =
          let full : Bool = leb c.max_attempts (length (window_of c now (seen_of through rows))) in
          elim tail_lem [
            | inl (t, n) ↦ ground (arith, t, n, sum, h)
            | inr (a, t, n, l, w) ↦ elim (Bool-cases full) [
              | inl q ↦
                  (let (k, o, g) = source_lem h q in ground (arith, t, n, l, w, q, o, g, sum, h))
              | inr q ↦ ground (arith, t, n, l, w, q, sum, h)
            ]
          ]

-- When the rows of a subject come newest first by their sequence numbers, the loop over them has
-- filled the vectors without an error, and the limit on attempts is positive, the branch that searches
-- the vectors gives the budget, or the error, that the statements give, at every instant and watermark.
pub budget_history-budget :
    (c : Config) (now : ℕ) (through : Option ℕ) (rows : List Admission) (h : BudgetHistory)
    → 0 < c.max_attempts
    → IsFalling rows
    → history_of rows ≡ ok h
    → budget_history c now through h ≡ budget c now through rows
unfolding budget_history budget
budget_history-budget c now through rows h positive falling filled =
    let (same, m) = history_of-IsMonotonic rows h falling filled in
    ap (budget_history c now through) same
    ∙ sym (ap (λ r. r >>= budget_of c now) (usage_lem c now through rows m positive))
