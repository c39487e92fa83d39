-- ===== src/Store/Reports/Pages.antt =====
-- The pages of `Store::commits_page` of src/kernel.cpp, read one after the other.
use cogg_cpp.Base.{
  ℕ, zero, suc, ◌<◌, ◌==◌, ◌≡◌, refl, sym, ap, ◌∙◌, inl, inr, List, [], ◌∷◌, ◌++◌, Bool, true,
  false, keep, take, drop, All, All-weaken, sort_by, insert_by, Text, text_eq, ℤ, pos, negsuc,
  Bool-cases, lt→ltb, arith,
}
use cogg_cpp.Store.{State, CommitRow}
use cogg_cpp.Store.Reports.{by_tick, commits_of, is_after, last_tick, commits_after}

-- Rows of rising ticks.
abbrev IsRising : List CommitRow → Type 0
IsRising [] = Unit
IsRising (c ∷ rest) = All (λ x. c.tick < x.tick) rest × IsRising rest

-- No two rows of one tick.
abbrev pub HasUniqueTicks : List CommitRow → Type 0
HasUniqueTicks [] = Unit
HasUniqueTicks (c ∷ rest) = All (λ x. (c.tick == x.tick) ≡ false) rest × HasUniqueTicks rest

All-insert_by {κ} :
    (P : CommitRow → Type κ) (a : CommitRow) (xs : List CommitRow)
    → P a
    → All P xs
    → All P (insert_by by_tick a xs)
unfolding insert_by
All-insert_by P a [] h hs = (h, tt)
All-insert_by P a (b ∷ rest) h (k, ks) = ground (arith, h, k, ks, All-insert_by P a rest h ks)

All-sort_by {κ} :
    (P : CommitRow → Type κ) (xs : List CommitRow) → All P xs → All P (sort_by by_tick xs)
unfolding sort_by
All-sort_by P [] h = tt
All-sort_by P (x ∷ xs) (h, hs) = All-insert_by P x (sort_by by_tick xs) h (All-sort_by P xs hs)

insert_by-IsRising :
    (a : CommitRow) (xs : List CommitRow)
    → All (λ x. (a.tick == x.tick) ≡ false) xs
    → IsRising xs
    → IsRising (insert_by by_tick a xs)
unfolding insert_by
insert_by-IsRising a [] u r = (tt, tt)
insert_by-IsRising a (b ∷ rest) (u, us) (r, rs) = elim (Bool-cases (by_tick b a)) [
  | inl q ↦ rw q (
    All-insert_by (λ x. b.tick < x.tick) a rest (ground (arith, q)) r,
    insert_by-IsRising a rest us rs,
  )
  | inr q ↦ rw q (rises q, (r, rs))
]
  where
    below : by_tick b a ≡ false → a.tick < b.tick
    below q = ground (arith, q, u)

    rises : by_tick b a ≡ false → (a.tick < b.tick) × All (λ x. a.tick < x.tick) rest
    rises q = (below q, All-weaken rest (λ x h. omega (arith, below q, h)) r)

sort_by-IsRising : (xs : List CommitRow) → HasUniqueTicks xs → IsRising (sort_by by_tick xs)
unfolding sort_by
sort_by-IsRising [] u = tt
sort_by-IsRising (x ∷ xs) (u, us) =
    insert_by-IsRising x (sort_by by_tick xs) (All-sort_by (λ y. (x.tick == y.tick) ≡ false) xs u)
      (sort_by-IsRising xs us)

All-keep {κ} :
    (P : CommitRow → Type κ) (p : CommitRow → Bool) (xs : List CommitRow)
    → All P xs
    → All P (keep p xs)
All-keep P p [] h = tt
All-keep P p (x ∷ xs) (h, hs) = ground (arith, h, All-keep P p xs hs)

keep-IsRising : (p : CommitRow → Bool) (xs : List CommitRow) → IsRising xs → IsRising (keep p xs)
keep-IsRising p [] r = tt
keep-IsRising p (x ∷ xs) (r, rs) = elim (Bool-cases (p x)) [
  | inl q ↦ rw q (All-keep (λ y. x.tick < y.tick) p xs r, keep-IsRising p xs rs)
  | inr q ↦ rw q (keep-IsRising p xs rs)
]

All-kept : (p : CommitRow → Bool) (xs : List CommitRow) → All (λ x. p x ≡ true) (keep p xs)
All-kept p [] = tt
All-kept p (x ∷ xs) = elim (Bool-cases (p x)) [
  | inl q ↦ rw q (q, All-kept p xs)
  | inr q ↦ rw q (All-kept p xs)
]

keep-All : (p : CommitRow → Bool) (xs : List CommitRow) → All (λ x. p x ≡ true) xs → keep p xs ≡ xs
keep-All p [] h = refl
keep-All p (x ∷ xs) (h, hs) = ground (arith, h, keep-All p xs hs)

-- The second page selects among the rows of the first one.
keep-keep :
    (p q : CommitRow → Bool) (xs : List CommitRow)
    → ((x : CommitRow) → q x ≡ true → p x ≡ true)
    → keep q (keep p xs) ≡ keep q xs
keep-keep p q [] f = refl
keep-keep p q (x ∷ xs) f = elim (Bool-cases (p x)) [
  | inl h ↦ ground (arith, h, keep-keep p q xs f)
  | inr h ↦ ground (arith, h, f x, keep-keep p q xs f)
]

All-take {κ} : (P : CommitRow → Type κ) (n : ℕ) (xs : List CommitRow) → All P xs → All P (take n xs)
All-take P zero xs h = tt
All-take P (suc n) [] h = tt
All-take P (suc n) (x ∷ xs) (h, hs) = (h, All-take P n xs hs)

take-IsRising : (n : ℕ) (xs : List CommitRow) → IsRising xs → IsRising (take n xs)
take-IsRising zero xs r = tt
take-IsRising (suc n) [] r = tt
take-IsRising (suc n) (x ∷ xs) (r, rs) =
    (All-take (λ y. x.tick < y.tick) n xs r, take-IsRising n xs rs)

is_after_trans :
    (after : ℤ) (m t : ℕ)
    → is_after after m ≡ true
    → is_after (pos m) t ≡ true
    → is_after after t ≡ true
is_after_trans (pos n) m t h k = ground (arith, h, k)
is_after_trans (negsuc n) m t h k = refl

All-after :
    (m : ℕ) (ys : List CommitRow)
    → All (λ y. m < y.tick) ys
    → All (λ y. is_after (pos m) y.tick ≡ true) ys
All-after m ys h = All-weaken ys (λ y k. lt→ltb m y.tick k) h

-- A tick after the last row of a page is after the place where the page began.
is_after-last_tick :
    (after : ℤ) (ys : List CommitRow) (t : ℕ)
    → IsRising ys
    → All (λ y. is_after after y.tick ≡ true) ys
    → is_after (last_tick after ys) t ≡ true
    → is_after after t ≡ true
is_after-last_tick after [] t r h k = k
is_after-last_tick after (y ∷ ys) t (r, rs) (h, hs) k =
    is_after_trans after y.tick t h
      (is_after-last_tick (pos y.tick) ys t rs (All-after y.tick ys r) k)

keep-last_tick :
    (n : ℕ) (after : ℤ) (xs : List CommitRow)
    → IsRising xs
    → All (λ x. is_after after x.tick ≡ true) xs
    → keep (λ x. is_after (last_tick after (take n xs)) x.tick) xs ≡ drop n xs
keep-last_tick zero after xs r h = keep-All (λ x. is_after after x.tick) xs h
keep-last_tick (suc n) after [] r h = refl
keep-last_tick (suc n) after (x ∷ xs) (r, rs) (h, hs) =
    elim (Bool-cases (is_after (last_tick (pos x.tick) (take n xs)) x.tick)) [
      | inl q ↦ elim (absurd q) [ ]
      | inr q ↦ rw q (keep-last_tick n (pos x.tick) xs rs (All-after x.tick xs r))
    ]
  where
    absurd : is_after (last_tick (pos x.tick) (take n xs)) x.tick ≡ true → ⊥
    absurd q = ground (
      arith,
      is_after-last_tick (pos x.tick) (take n xs) x.tick (take-IsRising n xs rs)
          (All-take (λ y. is_after (pos x.tick) y.tick ≡ true) n xs (All-after x.tick xs r)) q,
    )

pub take-drop : (n : ℕ) (xs : List CommitRow) → take n xs ++ drop n xs ≡ xs
take-drop zero xs = refl
take-drop (suc n) [] = refl
take-drop (suc n) (x ∷ xs) = ap (λ ys. x ∷ ys) (take-drop n xs)

HasUniqueTicks-keep :
    (p : CommitRow → Bool) (xs : List CommitRow) → HasUniqueTicks xs → HasUniqueTicks (keep p xs)
HasUniqueTicks-keep p [] u = tt
HasUniqueTicks-keep p (x ∷ xs) (u, us) = elim (Bool-cases (p x)) [
  | inl q ↦ rw q (All-keep (λ y. (x.tick == y.tick) ≡ false) p xs u, HasUniqueTicks-keep p xs us)
  | inr q ↦ rw q (HasUniqueTicks-keep p xs us)
]

commits_of-IsRising :
    (s : State) (subject : Text)
    → HasUniqueTicks (keep (λ c. text_eq c.subject subject) s.commits)
    → IsRising (commits_of s subject)
unfolding commits_of
commits_of-IsRising s subject u = sort_by-IsRising _ u

-- A page and what is after its cursor are what is after the place where the page began.
pub commits_after-last_tick :
    (s : State) (subject : Text) (after : ℤ) (n : ℕ)
    → HasUniqueTicks (keep (λ c. text_eq c.subject subject) s.commits)
    → commits_after s subject (last_tick after (take n (commits_after s subject after)))
      ≡ drop n (commits_after s subject after)
unfolding commits_after
commits_after-last_tick s subject after n u =
    sym (keep-keep (λ x. is_after after x.tick) (λ x. is_after cursor x.tick) rows back)
    ∙ keep-last_tick n after kept rising (All-kept (λ x. is_after after x.tick) rows)
  where
    rows : List CommitRow
    rows = commits_of s subject

    kept : List CommitRow
    kept = keep (λ x. is_after after x.tick) rows

    rising : IsRising kept
    rising = keep-IsRising (λ x. is_after after x.tick) rows (commits_of-IsRising s subject u)

    cursor : ℤ
    cursor = last_tick after (take n kept)

    back : (x : CommitRow) → is_after cursor x.tick ≡ true → is_after after x.tick ≡ true
    back x q =
        is_after-last_tick after (take n kept) x.tick (take-IsRising n kept rising)
          (All-take (λ y. is_after after y.tick ≡ true) n kept
            (All-kept (λ y. is_after after y.tick) rows))
          q
