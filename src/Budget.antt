-- ===== src/Budget.antt =====
-- Admission accounting: `Store::Impl::budget` of src/kernel.cpp, with the limits of kernel.hpp and
-- their validation by `limits_json`. A list of admissions stands for the rows of one subject in
-- `attempts`, newest first, each with its `seq` and its `admitted_at`.
pub mod Window
pub mod History
pub mod Searches
pub mod Vectors
pub mod Filled
pub mod Equivalent
use cogg_cpp.Base.{
  ℕ, zero, suc, ◌+◌, ◌-◌, ◌*◌, ◌≤◌, max, Option, none, some, List, [], ◌∷◌, ◌&&◌, Bool, true, ltb,
  leb, ◌==◌, if◌then◌else◌, length, keep, drop, ℤ, pos, negsuc, int64_max, Result, ok, err, error,
  require, require_row, ◌>>=◌, ◌>>◌,
}

abbrev pub max_delay : ℕ
max_delay = 365 * 24 * 60 * 60 * 1000

-- `Limits`, whose fields a host may set to any 64-bit integer.
pub record Limits : Type 0 where
  pub min_wake_ms : ℤ
  pub max_attempts : ℤ
  pub period_ms : ℤ
  pub max_wake_ms : ℤ
  pub max_occasion_failures : ℤ

-- The object that `limits_json` builds; a missing `max_occasion_failures` reads as 0.
pub record Config : Type 0 where
  pub min_wake_ms : ℕ
  pub max_attempts : ℕ
  pub period_ms : ℕ
  pub max_wake_ms : ℕ
  pub max_occasion_failures : ℕ

-- A field that the checks hold at or above 0.
abbrev pub non_negative : ℤ → Result ℕ
non_negative (pos n) = ok n
non_negative (negsuc n) = err (error "invalid runtime limits")

abbrev pub in_limits : Config → Bool
in_limits c =
    ltb 0 c.min_wake_ms
    && leb c.min_wake_ms max_delay
    && ltb 0 c.max_attempts
    && leb c.max_attempts 1000000
    && ltb 0 c.period_ms
    && leb c.period_ms max_delay
    && leb c.min_wake_ms c.max_wake_ms
    && leb c.max_wake_ms max_delay
    && leb c.max_occasion_failures 64

unfoldable pub limits_json : Limits → Result Config
limits_json l = do
  a ← non_negative l.min_wake_ms
  b ← non_negative l.max_attempts
  c ← non_negative l.period_ms
  d ← non_negative l.max_wake_ms
  e ← non_negative l.max_occasion_failures
  let config : Config = record {
    min_wake_ms = a;
    max_attempts = b;
    period_ms = c;
    max_wake_ms = d;
    max_occasion_failures = e;
  }
  require (in_limits config) "invalid runtime limits"
  ok config

-- check_time(now)
unfoldable pub check_time : ℤ → Result ℕ
check_time (pos n) = ok n
check_time (negsuc n) = err (error "negative wall clock")

-- add(a, b), for times that are not negative.
unfoldable pub add : ℕ → ℕ → Result ℕ
add a b = do require (leb b int64_max && leb a (int64_max - b)) "time overflow"; ok (a + b)

pub record Admission : Type 0 where
  pub seq : ℕ
  pub at : ℕ

pub record Budget : Type 0 where
  pub used : ℕ
  pub limit : ℕ
  pub period_ms : ℕ
  pub through_seq : ℕ
  pub floor_at : ℕ
  pub quota_at : ℕ
  pub eligible_at : ℕ

-- admitted_at > lower, for lower = now >= period ? now - period : -1
abbrev pub after_lower : ℕ → ℕ → ℕ → Bool
after_lower now period at = if leb period now then ltb (now - period) at else true

-- seq <= through; `none` is the default, the largest 64-bit integer, which no row exceeds.
abbrev pub seq_through : Option ℕ → Admission → Bool
seq_through none a = true
seq_through (some through) a = leb a.seq through

-- ORDER BY seq DESC LIMIT 1
unfoldable pub last_row : List Admission → Option Admission
last_row [] = none
last_row (a ∷ rest) = elim (last_row rest) [
  | none ↦ some a
  | some b ↦ if leb b.seq a.seq then some a else some b
]

-- ORDER BY admitted_at DESC, seq DESC
abbrev precedes : Admission → Admission → Bool
precedes a b = if a.at == b.at then leb b.seq a.seq else ltb b.at a.at

unfoldable pub insert_row : Admission → List Admission → List Admission
insert_row a [] = a ∷ []
insert_row a (b ∷ rest) = if precedes a b then a ∷ b ∷ rest else b ∷ insert_row a rest

unfoldable pub order_rows : List Admission → List Admission
unfolding insert_row
order_rows [] = []
order_rows (a ∷ rest) = insert_row a (order_rows rest)

-- LIMIT 1 OFFSET k
unfoldable pub row_at : ℕ → List Admission → Option Admission
row_at k [] = none
row_at zero (a ∷ rest) = some a
row_at (suc k) (a ∷ rest) = row_at k rest

-- What the two ways to read the rows hand to the rest of `budget`.
pub record Usage : Type 0 where
  pub used : ℕ
  pub last : Option ℕ
  pub watermark : ℕ
  pub quota_source : Option ℕ

-- The statements `tail`, `count` and `kth`.
unfoldable pub usage_sql : Config → ℕ → Option ℕ → List Admission → Result Usage
unfolding last_row order_rows row_at
usage_sql c now through rows =
    let seen = keep (seq_through through) rows in
    let window = keep (λ a. after_lower now c.period_ms a.at) seen in
    let used = length window in
    let tail = last_row seen in
    let last : Option ℕ = elim tail [ none ↦ none | some a ↦ some a.at ] in
    let watermark : ℕ = elim tail [ none ↦ 0 | some a ↦ a.seq ] in
    if leb c.max_attempts used
    then (do
      kth ← require_row (row_at (c.max_attempts - 1) (order_rows window)) "budget source missing"
      ok (record { used = used; last = last; watermark = watermark; quota_source = some kth.at }))
    else ok (record { used = used; last = last; watermark = watermark; quota_source = none })

abbrev floor_from : Config → ℕ → Option ℕ → Result ℕ
floor_from c now none = ok now
floor_from c now (some last) = do t ← add last c.min_wake_ms; ok (max now t)

abbrev quota_from : Config → ℕ → Option ℕ → Result ℕ
quota_from c now none = ok now
quota_from c now (some source) = add source c.period_ms

-- The end of `budget`, from `floor_at = now, quota_at = now` on.
unfoldable pub budget_of : Config → ℕ → Usage → Result Budget
budget_of c now u = do
  floor_at ← floor_from c now u.last
  quota_at ← quota_from c now u.quota_source
  ok (record {
    used = u.used;
    limit = c.max_attempts;
    period_ms = c.period_ms;
    through_seq = u.watermark;
    floor_at = floor_at;
    quota_at = quota_at;
    eligible_at = max floor_at quota_at;
  })

unfoldable pub budget : Config → ℕ → Option ℕ → List Admission → Result Budget
unfolding usage_sql budget_of add
budget c now through rows = do u ← usage_sql c now through rows; budget_of c now u
