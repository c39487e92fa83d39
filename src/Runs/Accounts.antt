-- ===== src/Runs/Accounts.antt =====
-- The part of a store that admission accounting reads: who may be admitted and who was
-- (src/kernel.cpp, the columns of `subjects` and `attempts` that `budget` reads).
use cogg_cpp.Base.{
  ℕ, suc, ◌≤◌, ◌<◌, ◌≡◌, refl, none, some, List, [], ◌∷◌, map, Bool, true, false, inl, inr,
  Bool-cases, if◌then◌else◌, length, any, find, All, All-weaken, Text, text_eq, text_eq_iff,
  text_eq→eq, text_eq_refl, find-holds, All-find, arith, ok, subst, sym,
}
use mathlib.Core.Option.{some-injective}
use cogg_cpp.Budget.{Config, Budget, Admission, budget}
use cogg_cpp.Budget.Window.{IsPaced, budget-IsPaced}
use cogg_cpp.Store.{State, SubjectRow, AttemptRow, admissions}

pub record Owner : Type 0 where
  pub id : Text
  pub limits : Config

pub record Trace : Type 0 where
  pub subject : Text
  pub seq : ℕ
  pub at : ℕ

abbrev pub owner : SubjectRow → Owner
owner r = record { id = r.id; limits = r.limits }

abbrev pub trace : AttemptRow → Trace
trace a = record { subject = a.subject; seq = a.seq; at = a.admitted_at }

abbrev pub owners : State → List Owner
owners s = map owner s.subjects

abbrev pub traces : State → List Trace
traces s = map trace s.attempts

pub traces_of : Text → List Trace → List Admission
traces_of subject [] = []
traces_of subject (t ∷ rest) =
    if text_eq t.subject subject
    then record { seq = t.seq; at = t.at } ∷ traces_of subject rest
    else traces_of subject rest

pub traces_of-admissions :
    (subject : Text) (rows : List AttemptRow)
    → traces_of subject (map trace rows) ≡ admissions subject rows
unfolding traces_of admissions
traces_of-admissions subject [] = refl
traces_of-admissions subject (a ∷ rest) = ground (arith, traces_of-admissions subject rest)

abbrev pub is_owned : List Owner → Text → Bool
is_owned os subject = any (λ o. text_eq o.id subject) os

abbrev pub AreDistinct : List Owner → Type 0
AreDistinct [] = Unit {0}
AreDistinct (o ∷ rest) = (is_owned rest o.id ≡ false) × AreDistinct rest

abbrev pub Keeps : Owner → List Trace → Type 0
Keeps o ts = (0 < o.limits.period_ms) × IsPaced o.limits (traces_of o.id ts)

pub record AreAccounted (os : List Owner) (ts : List Trace) : Type 0 where
  pub distinct : AreDistinct os
  pub paced : All (λ o. Keeps o ts) os
  pub numbered : All (λ t. t.seq < suc (length ts)) ts
  pub owned : All (λ t. is_owned os t.subject ≡ true) ts

traces_of-unowned :
    (os : List Owner) (subject : Text) (ts : List Trace)
    → is_owned os subject ≡ false
    → All (λ t. is_owned os t.subject ≡ true) ts
    → traces_of subject ts ≡ []
unfolding traces_of
traces_of-unowned os subject [] h a = refl
traces_of-unowned os subject (t ∷ rest) h (a, as') = elim (Bool-cases (text_eq t.subject subject)) [
  | inl e ↦ cc (text_eq→eq t.subject subject e)
  | inr e ↦ ground (arith, e, traces_of-unowned os subject rest h as')
]

-- A new subject, whose id no subject has, is accounted for.
pub new_owner :
    (o : Owner) (os : List Owner) (ts : List Trace)
    → AreAccounted os ts
    → is_owned os o.id ≡ false
    → 0 < o.limits.period_ms
    → AreAccounted (o ∷ os) ts
new_owner o os ts acc fresh period = record {
  distinct = (fresh, acc.distinct);
  paced = (
    (period, subst (IsPaced o.limits) (sym (traces_of-unowned os o.id ts fresh acc.owned)) tt),
    acc.paced,
  );
  numbered = acc.numbered;
  owned = All-weaken ts (λ t h. ground arith) acc.owned;
}

traces_of-All :
    (P : Trace → Type 0) (Q : Admission → Type 0) (subject : Text) (ts : List Trace)
    → ((t : Trace) → P t → Q (record { seq = t.seq; at = t.at }))
    → All P ts
    → All Q (traces_of subject ts)
unfolding traces_of
traces_of-All P Q subject [] f h = tt
traces_of-All P Q subject (t ∷ rest) f (h, hs) =
    elim (text_eq t.subject subject)
      as (λ b. All Q (
        if b
        then record { seq = t.seq; at = t.at } ∷ traces_of subject rest
        else traces_of subject rest)) [
          | true ↦ (f t h, traces_of-All P Q subject rest f hs)
          | false ↦ traces_of-All P Q subject rest f hs
        ]

Keeps-other :
    (o : Owner) (t : Trace) (ts : List Trace)
    → text_eq t.subject o.id ≡ false
    → Keeps o ts
    → Keeps o (t ∷ ts)
unfolding traces_of
Keeps-other o t ts ne (p, k) = (p, rw ne k)

-- All the owners keep their pace if the one that is found does.
paced_after :
    (os : List Owner) (o : Owner) (t : Trace) (ts : List Trace)
    → AreDistinct os
    → find (λ x. text_eq x.id t.subject) os ≡ some o
    → All (λ x. Keeps x ts) os
    → Keeps o (t ∷ ts)
    → All (λ x. Keeps x (t ∷ ts)) os
paced_after [] o t ts d e h k = cc
paced_after (x ∷ rest) o t ts (d, ds) e (h, hs) k = elim (Bool-cases (text_eq x.id t.subject)) [
  | inl same ↦ (
    subst (λ y. Keeps y (t ∷ ts)) (some-injective o x (ground arith)) k,
    others rest (rw (text_eq→eq x.id t.subject same) at d) hs,
  )
  | inr other ↦ (
    Keeps-other x t ts (ground (arith, text_eq_iff x.id t.subject, text_eq_iff t.subject x.id)) h,
    paced_after rest o t ts ds (ground (arith, other)) hs k,
  )
]
  where
    others :
        (rest : List Owner)
        → is_owned rest t.subject ≡ false
        → All (λ y. Keeps y ts) rest
        → All (λ y. Keeps y (t ∷ ts)) rest
    others [] no_one g = tt
    others (y ∷ ys) no_one (g, gs) = (
      Keeps-other y t ts (ground (arith, text_eq_iff y.id t.subject, text_eq_iff t.subject y.id)) g,
      others ys (ground arith) gs,
    )

is_owned-find :
    (os : List Owner) (subject : Text) (o : Owner)
    → find (λ x. text_eq x.id subject) os ≡ some o
    → is_owned os subject ≡ true
is_owned-find [] subject o e = cc
is_owned-find (x ∷ rest) subject o e = ground (arith, is_owned-find rest subject o)

-- An admission of an accounted subject, with the next sequence number and an eligible budget, is
-- accounted for.
pub new_trace :
    (os : List Owner) (o : Owner) (ts : List Trace) (subject : Text) (now : ℕ) {b : Budget}
    → AreAccounted os ts
    → find (λ x. text_eq x.id subject) os ≡ some o
    → budget o.limits now none (traces_of subject ts) ≡ ok b
    → b.eligible_at ≤ now
    → AreAccounted os (record { subject = subject; seq = suc (length ts); at = now } ∷ ts)
unfolding traces_of
new_trace os o ts subject now acc found e due = record {
  distinct = acc.distinct;
  paced = paced_after os o _ ts acc.distinct found acc.paced (period, kept);
  numbered = (
    omega arith,
    All-weaken {P = λ t. t.seq < suc (length ts)} {Q = λ t. t.seq < suc (suc (length ts))} ts
        (λ t h. omega arith) acc.numbered,
  );
  owned = (is_owned-find os subject o found, acc.owned);
}
  where
    id_of : text_eq o.id subject ≡ true
    id_of = find-holds (λ x. text_eq x.id subject) os o found

    period : 0 < o.limits.period_ms
    period = (All-find (λ x. Keeps x ts) (λ x. text_eq x.id subject) os o acc.paced found).0

    paced : IsPaced o.limits (traces_of subject ts)
    paced =
        subst (λ i. IsPaced o.limits (traces_of i ts)) (text_eq→eq o.id subject id_of)
          (All-find (λ x. Keeps x ts) (λ x. text_eq x.id subject) os o acc.paced found).1

    fresh : All (λ a. a.seq < suc (length ts)) (traces_of subject ts)
    fresh =
        traces_of-All (λ t. t.seq < suc (length ts)) (λ a. a.seq < suc (length ts)) subject ts
          (λ t h. h) acc.numbered

    kept :
        IsPaced o.limits
          (traces_of o.id (record { subject = subject; seq = suc (length ts); at = now } ∷ ts))
    kept =
        subst
          (λ i.
            IsPaced o.limits
              (traces_of i (record { subject = subject; seq = suc (length ts); at = now } ∷ ts)))
          (sym (text_eq→eq o.id subject id_of))
          (rw (text_eq_refl subject) (
            budget-IsPaced o.limits now (suc (length ts)) (traces_of subject ts) period paced fresh
              e due))
