-- ===== src/Budget/Searches.antt =====
-- What `std::upper_bound` finds in the vectors of `BudgetHistory` in src/kernel.cpp, for a list of rows.
use cogg_cpp.Base.{
  ℕ, zero, suc, ◌+◌, ◌≤◌, ◌<◌, ◌≡◌, refl, sym, ap, ◌∙◌, inl, inr, some, List, [], ◌∷◌, ◌++◌, Bool,
  true, false, not, Bool-cases, length, keep, take, get_elem?, All, subst, length-append,
  length-keep-le, arith,
}
use cogg_cpp.Budget.{Admission}
use cogg_cpp.Budget.History.{upper_bound}

-- The values of rows whose newest comes first, oldest first.
abbrev pub back : (Admission → ℕ) → List Admission → List ℕ
back f [] = []
back f (a ∷ rest) = back f rest ++ f a ∷ []

pub length-back : (f : Admission → ℕ) (rows : List Admission) → length (back f rows) ≡ length rows
length-back f [] = refl
length-back f (a ∷ rest) = omega (arith, length-append (back f rest) (f a ∷ []), length-back f rest)

upper_bound-append :
    (p : ℕ → Bool) (xs : List ℕ) (x : ℕ)
    → p x ≡ true
    → upper_bound p (xs ++ x ∷ []) ≡ upper_bound p xs
unfolding upper_bound
upper_bound-append p [] x h = ground (arith, h)
upper_bound-append p (y ∷ xs) x h = ground (arith, upper_bound-append p xs x h)

upper_bound-none :
    (p : ℕ → Bool) (f : Admission → ℕ) (rows : List Admission)
    → All (λ a. p (f a) ≡ false) rows
    → upper_bound p (back f rows) ≡ length rows
unfolding upper_bound
upper_bound-none p f rows h = beyond (back f rows) (holds rows h) ∙ length-back f rows
  where
    beyond : (xs : List ℕ) → All (λ x. p x ≡ false) xs → upper_bound p xs ≡ length xs
    beyond [] h = refl
    beyond (x ∷ xs) (h, hs) = ground (arith, h, beyond xs hs)

    snoc :
        (xs : List ℕ) (x : ℕ)
        → All (λ y. p y ≡ false) xs
        → p x ≡ false
        → All (λ y. p y ≡ false) (xs ++ x ∷ [])
    snoc [] x h k = (k, tt)
    snoc (y ∷ xs) x (h, hs) k = (h, snoc xs x hs k)

    holds :
        (rows : List Admission)
        → All (λ a. p (f a) ≡ false) rows
        → All (λ x. p x ≡ false) (back f rows)
    holds [] h = tt
    holds (a ∷ rest) (h, hs) = snoc (back f rest) (f a) (holds rest hs) h

-- Once a row is not above the bound, no older one is.
abbrev pub Falls : (Admission → Bool) → List Admission → Type 0
Falls q [] = Unit {0}
Falls q (a ∷ rest) = (q a ≡ false → All (λ b. q b ≡ false) rest) × Falls q rest

pub keep-none :
    (q : Admission → Bool) (rows : List Admission) → All (λ b. q b ≡ false) rows → keep q rows ≡ []
keep-none q [] h = refl
keep-none q (a ∷ rest) (h, hs) = ground (arith, h, keep-none q rest hs)

pub upper_bound-back :
    (p : ℕ → Bool) (f : Admission → ℕ) (rows : List Admission)
    → Falls (λ a. p (f a)) rows
    → upper_bound p (back f rows) + length (keep (λ a. p (f a)) rows) ≡ length rows
unfolding upper_bound
upper_bound-back p f [] h = refl
upper_bound-back p f (a ∷ rest) (h, hs) = elim (Bool-cases (p (f a))) [
  | inl e ↦
      ground (arith, e, upper_bound-append p (back f rest) (f a) e, upper_bound-back p f rest hs)
  | inr e ↦
      ground
        (arith, e, upper_bound-none p f (a ∷ rest) (e, h e), keep-none (λ b. p (f b)) rest (h e))
]

keep_whole :
    (q : Admission → Bool) (rows : List Admission)
    → All (λ b. q b ≡ false) rows
    → keep (λ b. not (q b)) rows ≡ rows
keep_whole q [] h = refl
keep_whole q (a ∷ rest) (h, hs) = ground (arith, h, keep_whole q rest hs)

module _ {A : Type 0} where
  take-le : (n : ℕ) (xs ys : List A) → n ≤ length xs → take n (xs ++ ys) ≡ take n xs
  take-le zero xs ys h = refl
  take-le (suc n) [] ys h = ground arith
  take-le (suc n) (x ∷ xs) ys h = ap (λ zs. x ∷ zs) (take-le n xs ys (omega (arith, h)))

  take-length : (xs : List A) → take (length xs) xs ≡ xs
  take-length [] = refl
  take-length (x ∷ xs) = ap (λ zs. x ∷ zs) (take-length xs)

  pub get_elem-take : (n i : ℕ) (xs : List A) → i < n → get_elem? (take n xs) i ≡ get_elem? xs i
  get_elem-take zero i xs h = ground arith
  get_elem-take (suc n) i [] h = refl
  get_elem-take (suc n) zero (x ∷ xs) h = refl
  get_elem-take (suc n) (suc i) (x ∷ xs) h = get_elem-take n i xs (omega (arith, h))

  pub get_elem-append :
      (i : ℕ) (xs ys : List A) → i < length xs → get_elem? (xs ++ ys) i ≡ get_elem? xs i
  get_elem-append i [] ys h = ground arith
  get_elem-append zero (x ∷ xs) ys h = refl
  get_elem-append (suc i) (x ∷ xs) ys h = get_elem-append i xs ys (omega (arith, h))

  pub get_elem-last : (xs : List A) (x : A) → get_elem? (xs ++ x ∷ []) (length xs) ≡ some x
  get_elem-last [] x = refl
  get_elem-last (y ∷ xs) x = get_elem-last xs x

pub take-back :
    (q : Admission → Bool) (f : Admission → ℕ) (rows : List Admission)
    → Falls q rows
    → take (length (keep (λ a. not (q a)) rows)) (back f rows) ≡ back f (keep (λ a. not (q a)) rows)
take-back q f [] h = refl
take-back q f (a ∷ rest) (h, hs) = elim (Bool-cases (q a)) [
  | inl e ↦ rw e (
      take-le (length (keep (λ a. not (q a)) rest)) (back f rest) (f a ∷ [])
        (omega (arith, length-keep-le (λ a. not (q a)) rest, length-back f rest))
      ∙ take-back q f rest hs)
  | inr e ↦
      subst (λ kept. take (length kept) (back f (a ∷ rest)) ≡ back f kept)
        (sym (keep_whole q (a ∷ rest) (e, h e)))
        (subst (λ n. take n (back f (a ∷ rest)) ≡ back f (a ∷ rest)) (length-back f (a ∷ rest))
          (take-length (back f (a ∷ rest))))
]
