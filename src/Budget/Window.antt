-- ===== src/Budget/Window.antt =====
-- What an eligible admission means: `budget` of src/kernel.cpp keeps each subject within its quota
-- in every window, and keeps its admissions apart.
use cogg_cpp.Base.{
  ℕ, zero, suc, ◌+◌, ◌-◌, ◌≤◌, ◌<◌, ◌≡◌, refl, inl, inr, Option, none, some, List, [], ◌∷◌, ◌&&◌,
  Bool, true, false, leb, Bool-cases, Option-cases, length, keep, All, All-weaken, subst,
  if◌then◌else◌, ok, arith,
}
use cogg_cpp.Budget.{
  Admission, Config, Budget, after_lower, seq_through, last_row, insert_row, order_rows, row_at,
  budget, precedes,
}
use mathlib.Core.Option.{some-injective}

-- The admissions of one window, (now - period, now].
abbrev pub in_window : Config → ℕ → Admission → Bool
in_window c now a = after_lower now c.period_ms a.at && leb a.at now

-- Newest first: sequence numbers fall, admissions lie `min_wake_ms` apart, and each came while the
-- window that ends at it held fewer than `max_attempts` earlier ones.
abbrev pub IsPaced : Config → List Admission → Type 0
IsPaced c [] = Unit {0}
IsPaced c (a ∷ rest) =
    All (λ b. b.seq < a.seq) rest
    × All (λ b. b.at + c.min_wake_ms ≤ a.at) rest
    × (length (keep (λ b. after_lower a.at c.period_ms b.at) rest) < c.max_attempts)
    × IsPaced c rest

pub keep-true : (rows : List Admission) → keep (seq_through none) rows ≡ rows
keep-true [] = refl
keep-true (a ∷ rest) = ground (arith, keep-true rest)

pub last_row-newest :
    (a : Admission) (rest : List Admission)
    → All (λ b. b.seq < a.seq) rest
    → last_row (a ∷ rest) ≡ some a
unfolding last_row
last_row-newest a [] h = refl
last_row-newest a (b ∷ rest) (hb, hr) = elim (Option-cases (last_row (b ∷ rest))) [
  | inl e ↦ ground (arith, e)
  | inr (m, e) ↦ ground (arith, e, last_row-below a.seq (b ∷ rest) m (hb, hr) e)
]
  where
    last_row-below :
        (n : ℕ) (rows : List Admission) (m : Admission)
        → All (λ x. x.seq < n) rows
        → last_row rows ≡ some m
        → m.seq < n
    last_row-below n [] m h e = cc
    last_row-below n (x ∷ xs) m (hx, hs) e = elim (Option-cases (last_row xs)) [
      | inl q ↦ ground (arith, q)
      | inr (k, q) ↦ ground (arith, q, last_row-below n xs k hs q)
    ]

module _ (P : Admission → Type 0) where
  insert_row-All :
      (a : Admission) (rows : List Admission) → P a → All P rows → All P (insert_row a rows)
  unfolding insert_row
  insert_row-All a [] h hs = (h, tt)
  insert_row-All a (b ∷ rest) h (hb, hs) =
      elim (precedes a b) as (λ t. All P (if t then a ∷ b ∷ rest else b ∷ insert_row a rest)) [
        | true ↦ (h, (hb, hs))
        | false ↦ (hb, insert_row-All a rest h hs)
      ]

  order_rows-All : (rows : List Admission) → All P rows → All P (order_rows rows)
  unfolding order_rows
  order_rows-All [] h = tt
  order_rows-All (a ∷ rest) (h, hs) = insert_row-All a (order_rows rest) h (order_rows-All rest hs)

  row_at-All :
      (k : ℕ) (rows : List Admission) (a : Admission) → All P rows → row_at k rows ≡ some a → P a
  unfolding row_at
  row_at-All zero [] a h e = cc
  row_at-All (suc k) [] a h e = cc
  row_at-All zero (b ∷ rest) a (h, hs) e = subst P (some-injective b a e) h
  row_at-All (suc k) (b ∷ rest) a (h, hs) e = row_at-All k rest a hs e

keep-All : {A : Type 0} (p : A → Bool) (xs : List A) → All (λ x. p x ≡ true) (keep p xs)
keep-All p [] = tt
keep-All p (x ∷ xs) = elim (Bool-cases (p x)) [
  | inl e ↦ rw e (e, keep-All p xs)
  | inr e ↦ rw e (keep-All p xs)
]

-- The window's rows are what the source of the quota is chosen from.
source_in_window :
    (c : Config) (now k : ℕ) (rows : List Admission) (a : Admission)
    → row_at k (order_rows (keep (λ b. after_lower now c.period_ms b.at) rows)) ≡ some a
    → after_lower now c.period_ms a.at ≡ true
source_in_window c now k rows a e =
    row_at-All (λ b. after_lower now c.period_ms b.at ≡ true) k _ a
      (order_rows-All (λ b. after_lower now c.period_ms b.at ≡ true) _
        (keep-All (λ b. after_lower now c.period_ms b.at) rows))
      e

after_lower-lt :
    (now period at : ℕ) → 0 < period → after_lower now period at ≡ true → now < at + period
after_lower-lt now period at h e = ground arith

-- When the period is positive, an instant at which the budget is eligible finds fewer than
-- `max_attempts` admissions, of those up to the watermark, in the window that ends at it.
pub eligible_used :
    (c : Config) (now : ℕ) (through : Option ℕ) (rows : List Admission) {b : Budget}
    → 0 < c.period_ms
    → budget c now through rows ≡ ok b
    → b.eligible_at ≤ now
    → length (keep (λ a. after_lower now c.period_ms a.at) (keep (seq_through through) rows))
      < c.max_attempts
unfolding budget
eligible_used c now through rows period e due =
    elim (Option-cases (row_at (c.max_attempts - 1) (order_rows window))) [
      | inl q ↦ ground (arith, q)
      | inr (a, q) ↦ ground (
        arith,
        q,
        after_lower-lt now c.period_ms a.at period
            (source_in_window c now (c.max_attempts - 1) (keep (seq_through through) rows) a q),
      )
    ]
  where
    window : List Admission
    window = keep (λ a. after_lower now c.period_ms a.at) (keep (seq_through through) rows)

eligible_floor :
    (c : Config) (now : ℕ) (a : Admission) (rest : List Admission) {b : Budget}
    → IsPaced c (a ∷ rest)
    → budget c now none (a ∷ rest) ≡ ok b
    → b.eligible_at ≤ now
    → a.at + c.min_wake_ms ≤ now
unfolding budget
eligible_floor c now a rest paced e due = ground (
  arith,
  keep-true (a ∷ rest),
  last_row-newest a rest paced.0,
  Option-cases (
      row_at (c.max_attempts - 1)
        (order_rows (keep (λ x. after_lower now c.period_ms x.at) (a ∷ rest)))),
)

-- When the period is positive and the rows are paced, an admission made at an instant at which its
-- budget is eligible, with a sequence number above theirs, leaves them paced: apart by the minimum
-- interval, and each within the quota of the window that ends at it.
pub budget-IsPaced :
    (c : Config) (now seq : ℕ) (rows : List Admission) {b : Budget}
    → 0 < c.period_ms
    → IsPaced c rows
    → All (λ a. a.seq < seq) rows
    → budget c now none rows ≡ ok b
    → b.eligible_at ≤ now
    → IsPaced c (record { seq = seq; at = now } ∷ rows)
budget-IsPaced c now seq rows period paced fresh e due =
    (fresh, floors c now rows paced e due, used, paced)
  where
    used : length (keep (λ a. after_lower now c.period_ms a.at) rows) < c.max_attempts
    used = rw (keep-true rows) at (eligible_used c now none rows period e due)

    floors :
        (c : Config) (now : ℕ) (rows : List Admission) {b : Budget}
        → IsPaced c rows
        → budget c now none rows ≡ ok b
        → b.eligible_at ≤ now
        → All (λ a. a.at + c.min_wake_ms ≤ now) rows
    floors c now [] paced e due = tt
    floors c now (a ∷ rest) paced e due =
        let newest = eligible_floor c now a rest paced e due in
        (newest, All-weaken rest (λ b h. omega arith) paced.1)

below_window :
    (c : Config) (now : ℕ) (a : Admission) (rest : List Admission)
    → All (λ b. b.at + c.min_wake_ms ≤ a.at) rest
    → a.at ≤ now
    → length (keep (in_window c now) rest)
      ≤ length (keep (λ b. after_lower a.at c.period_ms b.at) rest)
below_window c now a [] h le = omega arith
below_window c now a (b ∷ rest) (hb, hs) le = ground (arith, below_window c now a rest hs)

-- Paced rows never exceed the quota: whatever the instant, the window that ends at it holds at most
-- `max_attempts` admissions.
pub window_quota :
    (c : Config) (rows : List Admission)
    → IsPaced c rows
    → (now : ℕ) → length (keep (in_window c now) rows) ≤ c.max_attempts
window_quota c [] paced now = omega arith
window_quota c (a ∷ rest) paced now =
    ground (arith, window_quota c rest paced.3 now, below_window c now a rest paced.1)
