-- ===== src/Store/Reports/History.antt =====
-- A client of `Store::commits_page` of src/kernel.cpp that follows the cursor to the end.
use cogg_cpp.Base.{
  ℕ, zero, suc, ◌-◌, ◌≤◌, ◌<◌, ◌==◌, ◌≡◌, refl, sym, ap, ◌∙◌, subst, inl, inr, List, [], ◌∷◌, ◌++◌,
  ◌||◌, Bool, true, false, if◌then◌else◌, length, any, keep, take, drop, All, Text, text_eq,
  text_eq_refl, ℤ, pos, negsuc, Result, ok, err, error, ==_iff, Bool-cases, lt→ltb, le→leb, arith,
  ◌>>=◌,
}
use mathlib.Core.List.{append-nil}
use cogg_cpp.Proposal.{is_empty}
use cogg_cpp.Store.{State, CommitRow, Snapshot, snapshot}
use cogg_cpp.Store.Reports.{
  commits_of, is_after, after_fits, last_tick, commits_after, CommitPage, commits_page,
}
use cogg_cpp.Store.Reports.Pages.{HasUniqueTicks, commits_after-last_tick, take-drop}

-- A page after another while there are more, each at the same head.
unfoldable pub read_history : ℕ → State → Text → ℤ → ℕ → Text → Result (List CommitRow)
unfolding commits_page
read_history zero s subject after limit head = err (error "out of fuel")
read_history (suc fuel) s subject after limit head = do
  page ← commits_page s subject after limit head
  let rest = read_history fuel s subject page.next_after_tick limit head
  if page.has_more then (do more ← rest; ok (page.items ++ more)) else ok page.items

-- The rows of a subject run up to the tick of its head.
abbrev pub IsComplete : Snapshot → List CommitRow → Type 0
IsComplete state rows =
    All (λ c. c.tick ≤ state.tick) rows × (any (λ c. c.tick == state.tick) rows ≡ true)

or_true : (b : Bool) → (b || true) ≡ true
or_true b = ground arith

length-drop : (n : ℕ) (xs : List CommitRow) → length (drop n xs) ≡ length xs - n
length-drop zero xs = omega arith
length-drop (suc n) [] = omega arith
length-drop (suc n) (x ∷ xs) = omega (arith, length-drop n xs)

after_fits-last_tick :
    (after : ℤ) (ys : List CommitRow)
    → after_fits after ≡ true
    → after_fits (last_tick after ys) ≡ true
after_fits-last_tick after [] h = h
after_fits-last_tick after (y ∷ ys) h = after_fits-last_tick (pos y.tick) ys refl

is_after_mono : (after : ℤ) (t u : ℕ) → t ≤ u → is_after after t ≡ true → is_after after u ≡ true
is_after_mono (pos n) t u h k = ground (arith, h, k)
is_after_mono (negsuc n) t u h k = refl

keep-none :
    (p : CommitRow → Bool) (top : ℕ) (rows : List CommitRow)
    → ((x : CommitRow) → x.tick ≤ top → p x ≡ false)
    → All (λ c. c.tick ≤ top) rows
    → keep p rows ≡ []
keep-none p top [] f h = refl
keep-none p top (x ∷ xs) f (h, hs) = ground (arith, f x h, keep-none p top xs f hs)

keep-some :
    (p : CommitRow → Bool) (top : ℕ) (rows : List CommitRow)
    → ((x : CommitRow) → (x.tick == top) ≡ true → p x ≡ true)
    → any (λ c. c.tick == top) rows ≡ true
    → 1 ≤ length (keep p rows)
keep-some p top [] f h = cc
keep-some p top (x ∷ xs) f h = elim (Bool-cases (x.tick == top)) [
  | inl q ↦ ground (arith, f x q)
  | inr q ↦ ground (arith, keep-some p top xs f (ground (arith, q, h)))
]

-- When no two commits of a subject have one tick and they run up to the tick of its head, a client
-- that asks for pages of 1 to 256 commits, at that head, from a tick or from the beginning, and goes
-- on at the cursor while there are more, ends after at most one page more than there are commits to
-- read, and has read each commit after its start once, in the order of the ticks.
pub read_history-commits_after :
    (fuel : ℕ) (s : State) (subject : Text) (after : ℤ) (limit : ℕ) (state : Snapshot)
    → snapshot s subject ≡ ok state
    → HasUniqueTicks (keep (λ c. text_eq c.subject subject) s.commits)
    → IsComplete state (commits_of s subject)
    → 1 ≤ limit
    → limit ≤ 256
    → after_fits after ≡ true
    → length (commits_after s subject after) < fuel
    → read_history fuel s subject after limit state.head ≡ ok (commits_after s subject after)
unfolding read_history commits_after
read_history-commits_after zero s subject after limit state snapped u c low high fits enough =
    elim absurd [ ]
  where
    absurd : ⊥
    absurd = omega (arith, enough)
read_history-commits_after (suc fuel) s subject after limit state snapped u c low high fits enough =
    elim (Bool-cases (is_after cursor state.tick)) [
      | inl q ↦
          step q (commits_after s subject cursor) (
            read_history-commits_after fuel s subject cursor limit state snapped u c low high
              (after_fits-last_tick after (take limit rows) fits) (shorter q))
          ∙ ap ok (ap (λ ys. take limit rows ++ ys) rest ∙ take-drop limit rows)
      | inr q ↦ end q ∙ ap ok (all_read q)
    ]
  where
    rows : List CommitRow
    rows = commits_after s subject after

    cursor : ℤ
    cursor = last_tick after (take limit rows)

    rest : commits_after s subject cursor ≡ drop limit rows
    rest = commits_after-last_tick s subject after limit u

    page : CommitPage
    page = record {
      head = state.head;
      items = take limit rows;
      next_after_tick = cursor;
      has_more = is_after cursor state.tick;
    }

    answer : commits_page s subject after limit state.head ≡ ok page
    answer =
        rw
          (
            fits,
            lt→ltb 0 limit low,
            le→leb limit 256 high,
            snapped,
            text_eq_refl state.head,
            or_true (is_empty state.head),
          )
          refl

    step :
        is_after cursor state.tick ≡ true
        → (more : List CommitRow) → read_history fuel s subject cursor limit state.head ≡ ok more
        → read_history (suc fuel) s subject after limit state.head ≡ ok (take limit rows ++ more)
    step q more e = rw (answer, q, e) refl

    end :
        is_after cursor state.tick ≡ false
        → read_history (suc fuel) s subject after limit state.head ≡ ok (take limit rows)
    end q = rw (answer, q) refl

    shorter : is_after cursor state.tick ≡ true → length (commits_after s subject cursor) < fuel
    shorter q = omega (
      arith,
      enough,
      low,
      ap length rest,
      length-drop limit rows,
      keep-some (λ x. is_after cursor x.tick) state.tick (commits_of s subject)
          (λ x e. subst (λ t. is_after cursor t ≡ true) (sym ((==_iff x.tick state.tick).0 e)) q)
          c.1,
    )

    all_read : is_after cursor state.tick ≡ false → take limit rows ≡ rows
    all_read q =
        sym (append-nil (take limit rows))
        ∙ ap (λ ys. take limit rows ++ ys)
            (sym (
              sym rest
              ∙ keep-none (λ x. is_after cursor x.tick) state.tick (commits_of s subject)
                  (λ x h. ground (arith, is_after_mono cursor x.tick state.tick h, q)) c.0))
        ∙ take-drop limit rows
