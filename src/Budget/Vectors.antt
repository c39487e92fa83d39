-- ===== src/Budget/Vectors.antt =====
-- The rows that stand at the places of the vectors of `BudgetHistory` in src/kernel.cpp, and their order.
use cogg_cpp.Base.{
  ℕ, zero, suc, ◌+◌, ◌-◌, ◌≤◌, ◌<◌, ◌≡◌, refl, ap, ◌∙◌, inl, inr, Option, none, some, List, [], ◌∷◌,
  Bool, not, Bool-cases, length, keep, get_elem?, All, All-weaken, subst, arith,
}
use mathlib.Core.Option.{some-injective}
use cogg_cpp.Budget.{Admission, after_lower, seq_through, insert_row, order_rows, row_at}
use cogg_cpp.Budget.History.{above_through}
use cogg_cpp.Budget.Searches.{keep-none, get_elem-append, get_elem-last, back, length-back, Falls}

pub row_at-below :
    (k : ℕ) (rows : List Admission) → k < length rows → (a : Admission) × (row_at k rows ≡ some a)
unfolding row_at
row_at-below k [] h = ground arith
row_at-below zero (a ∷ rest) h = (a, refl)
row_at-below (suc k) (a ∷ rest) h = row_at-below k rest (omega (arith, h))

pub get_elem-back :
    (f : Admission → ℕ) (k i : ℕ) (rows : List Admission) (a : Admission)
    → i + suc k ≡ length rows
    → row_at k rows ≡ some a
    → get_elem? (back f rows) i ≡ some (f a)
unfolding row_at
get_elem-back f k i [] a h e = ground (arith, h)
get_elem-back f zero i (b ∷ rest) a h e =
    subst (λ n. get_elem? (back f (b ∷ rest)) n ≡ some (f b)) (omega (arith, h, length-back f rest))
      (get_elem-last (back f rest) (f b))
    ∙ ap (λ x. some (f x)) (some-injective b a e)
get_elem-back f (suc k) i (b ∷ rest) a h e =
    get_elem-append i (back f rest) (f b ∷ []) (omega (arith, length-back f rest, h))
    ∙ get_elem-back f k i rest a (omega (arith, h)) e

pub back-newest :
    (f : Admission → ℕ) (a : Admission) (rows : List Admission)
    → get_elem? (back f (a ∷ rows)) (length (back f (a ∷ rows)) - 1) ≡ some (f a)
unfolding row_at
back-newest f a rows =
    get_elem-back f 0 (length (back f (a ∷ rows)) - 1) (a ∷ rows) a
      (omega (arith, length-back f (a ∷ rows))) refl

pub row_at-keep :
    (q : Admission → Bool) (k : ℕ) (rows : List Admission)
    → Falls q rows
    → k < length (keep q rows)
    → row_at k (keep q rows) ≡ row_at k rows
unfolding row_at
row_at-keep q k [] f h = refl
row_at-keep q zero (a ∷ rest) (f, fs) h = elim (Bool-cases (q a)) [
  | inr e ↦ ground (arith, e, keep-none q rest (f e), h)
  | inl e ↦ rw e refl
]
row_at-keep q (suc k) (a ∷ rest) (f, fs) h = elim (Bool-cases (q a)) [
  | inr e ↦ ground (arith, e, keep-none q rest (f e), h)
  | inl e ↦ rw e (row_at-keep q k rest fs (ground (arith, e, h)))
]

-- Newest first: the sequence numbers fall, and the times do not rise.
abbrev pub IsMonotonic : List Admission → Type 0
IsMonotonic [] = Unit {0}
IsMonotonic (a ∷ rest) =
    All (λ b. b.seq < a.seq) rest × All (λ b. b.at ≤ a.at) rest × IsMonotonic rest

pub order_rows-IsMonotonic : (rows : List Admission) → IsMonotonic rows → order_rows rows ≡ rows
unfolding order_rows
order_rows-IsMonotonic [] h = refl
order_rows-IsMonotonic (a ∷ rest) (seqs, ats, h) =
    ap (insert_row a) (order_rows-IsMonotonic rest h) ∙ first rest seqs ats
  where
    first :
        (rows : List Admission)
        → All (λ b. b.seq < a.seq) rows
        → All (λ b. b.at ≤ a.at) rows
        → insert_row a rows ≡ a ∷ rows
    first [] s t = refl
    first (b ∷ rows) (s, ss) (t, ts) = ground (arith, s, t)

pub keep-IsMonotonic :
    (q : Admission → Bool) (rows : List Admission) → IsMonotonic rows → IsMonotonic (keep q rows)
keep-IsMonotonic q [] h = tt
keep-IsMonotonic q (a ∷ rest) (seqs, ats, h) = elim (Bool-cases (q a)) [
  | inl e ↦ rw e (
    kept (λ b. b.seq < a.seq) rest seqs,
    kept (λ b. b.at ≤ a.at) rest ats,
    keep-IsMonotonic q rest h,
  )
  | inr e ↦ rw e (keep-IsMonotonic q rest h)
]
  where
    kept : (P : Admission → Type 0) (rows : List Admission) → All P rows → All P (keep q rows)
    kept P [] h = tt
    kept P (b ∷ rows) (h, hs) = elim (Bool-cases (q b)) [
      | inl e ↦ rw e (h, kept P rows hs)
      | inr e ↦ rw e (kept P rows hs)
    ]

pub seen-Falls :
    (through : Option ℕ) (rows : List Admission)
    → IsMonotonic rows
    → Falls (λ a. above_through through a.seq) rows
seen-Falls through [] h = tt
seen-Falls none (a ∷ rest) (seqs, ats, h) =
    (λ e. All-weaken rest (λ b k. refl) seqs, seen-Falls none rest h)
seen-Falls (some t) (a ∷ rest) (seqs, ats, h) =
    (λ e. All-weaken rest (λ b k. ground (arith, e, k)) seqs, seen-Falls (some t) rest h)

pub window-Falls :
    (now period : ℕ) (rows : List Admission)
    → IsMonotonic rows
    → Falls (λ a. after_lower now period a.at) rows
window-Falls now period [] h = tt
window-Falls now period (a ∷ rest) (seqs, ats, h) =
    (λ e. All-weaken rest (λ b k. ground (arith, e, k)) ats, window-Falls now period rest h)

pub keep-through :
    (through : Option ℕ) (rows : List Admission)
    → keep (seq_through through) rows ≡ keep (λ a. not (above_through through a.seq)) rows
keep-through none [] = refl
keep-through none (a ∷ rest) = ground (arith, keep-through none rest)
keep-through (some t) [] = refl
keep-through (some t) (a ∷ rest) = ground (arith, keep-through (some t) rest)

pub length-keep-not :
    (q : Admission → Bool) (rows : List Admission)
    → length (keep q rows) + length (keep (λ a. not (q a)) rows) ≡ length rows
length-keep-not q [] = refl
length-keep-not q (a ∷ rest) = ground (arith, length-keep-not q rest)
