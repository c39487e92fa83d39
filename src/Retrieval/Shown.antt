-- ===== src/Retrieval/Shown.antt =====
-- What `project_memory` of src/memory.cpp returns shows every required candidate, within the budget.
use cogg_cpp.Base.{
  any-append, ◌≡◌, refl, ◌⊎◌, inl, inr, List, [], ◌∷◌, ◌++◌, ◌&&◌, and_parts, Bool, true, false,
  if◌then◌else◌, any, All, All-weaken, Text, text_eq, Result, ok, err, overflow, ◌>>=◌, ◌>>◌,
  >>=-eq-ok, check-bind, guard-bind, ok-injective, Bool-cases, subst, sym, arith, ◌∙◌, ap,
}
use mathlib.Core.List.{append_assoc, append-nil}
use cogg_cpp.Store.{Memory, Snapshot, assign}
use cogg_cpp.Retrieval.{MemoryPolicy, Wire, policy_ok}
use cogg_cpp.Retrieval.Candidates.{has_candidate, Candidate, Candidates}
use cogg_cpp.Retrieval.Project.{
  View, Bounds, valid, push, push_required, value_at, sorted_keys, try_item, try_key, fill,
  fixed_view, project_memory,
}
use cogg_cpp.Retrieval.Budgets.{
  IsAmong, IsWithin, push_required-IsWithin, fill-IsWithin, IsAmong-itself,
}

-- One of the items shown.
abbrev pub IsShown : List Wire → Wire → Type 0
IsShown [] w = ⊥
IsShown (x ∷ xs) w = (x ≡ w) ⊎ IsShown xs w

-- The items of the one are the first items of the other.
abbrev pub Continues : List Wire → List Wire → Type 0
Continues v x = (ys : List Wire) × (x ≡ v ++ ys)

Continues-trans : (u v w : List Wire) → Continues u v → Continues v w → Continues u w
Continues-trans u v w (ys, e) (zs, f) = (ys ++ zs, f ∙ ap (λ xs. xs ++ zs) e ∙ append_assoc u ys zs)

-- What a view shows, one that continues it shows.
pub Continues-any :
    (p : Wire → Bool) (v x : View)
    → Continues v.items x.items
    → any p v.items ≡ true
    → any p x.items ≡ true
Continues-any p v x (ys, e) h = rw e (any-append p v.items ys h)

IsShown-append : (w : Wire) (xs ys : List Wire) → IsShown xs w → IsShown (xs ++ ys) w
IsShown-append w [] ys h = elim h [ ]
IsShown-append w (x ∷ xs) ys h = elim h [ inl e ↦ inl e | inr k ↦ inr (IsShown-append w xs ys k) ]

IsShown-last : (w : Wire) (xs ys : List Wire) → IsShown (xs ++ w ∷ ys) w
IsShown-last w [] ys = inl refl
IsShown-last w (x ∷ xs) ys = inr (IsShown-last w xs ys)

IsShown-any :
    (p : Wire → Bool) (w : Wire) (xs : List Wire) → IsShown xs w → p w ≡ true → any p xs ≡ true
IsShown-any p w [] h k = elim h [ ]
IsShown-any p w (x ∷ xs) h k = elim h [
  | inl e ↦ ground (arith, ap p e, k)
  | inr m ↦ ground (arith, IsShown-any p w xs m k)
]

-- A candidate that must be shown, is.
abbrev pub IsServed : View → Candidate → Type 0
IsServed v c = (c.required ≡ false) ⊎ IsShown v.items c.entry

Continues-IsServed :
    (v x : View) (c : Candidate) → Continues v.items x.items → IsServed v c → IsServed x c
Continues-IsServed v x c (ys, e) h = elim h [
  | inl q ↦ inl q
  | inr k ↦ inr (subst (λ xs. IsShown xs c.entry) (sym e) (IsShown-append c.entry v.items ys k))
]

-- A required candidate with a given id gives an item with that id.
pub IsServed-id :
    (id : Text) (v : View) (cs : List Candidate)
    → All (IsServed v) cs
    → any (λ c. c.required && has_candidate id c) cs ≡ true
    → any (λ w. text_eq w.id id) v.items ≡ true
IsServed-id id v [] h k = cc
IsServed-id id v (c ∷ cs) (h, hs) k = elim (Bool-cases (c.required && has_candidate id c)) [
  | inl q ↦ elim h [
    | inl r ↦ ground (arith, q, r)
    | inr m ↦ IsShown-any (λ w. text_eq w.id id) c.entry v.items m (and_parts _ _ q).1
  ]
  | inr q ↦ IsServed-id id v cs hs (ground (arith, q, k))
]

module _ (b : Bounds) where
  pub push_required-Continues :
      (rest : List Candidate) (v x : View)
      → push_required b rest v ≡ ok x
      → Continues v.items x.items
  unfolding push_required
  push_required-Continues [] v x e =
      ([], ap (λ w. w.items) (sym (ok-injective v x e)) ∙ sym (append-nil v.items))
  push_required-Continues (c ∷ rest) v x e = elim (Bool-cases c.required) [
    | inl q ↦ elim (Bool-cases (valid b (push c.entry v))) [
      | inl r ↦
          Continues-trans v.items (push c.entry v).items x.items (c.entry ∷ [], refl)
            (push_required-Continues rest (push c.entry v) x (ground (arith, e, q, r)))
      | inr r ↦ ground (arith, e, q, r)
    ]
    | inr q ↦ push_required-Continues rest v x (ground (arith, e, q))
  ]

  push_required-IsServed :
      (rest : List Candidate) (v x : View) → push_required b rest v ≡ ok x → All (IsServed x) rest
  unfolding push_required
  push_required-IsServed [] v x e = tt
  push_required-IsServed (c ∷ rest) v x e = elim (Bool-cases c.required) [
    | inl q ↦ elim (Bool-cases (valid b (push c.entry v))) [
      | inl r ↦ (
        Continues-IsServed (push c.entry v) x c
            (push_required-Continues rest (push c.entry v) x (ground (arith, e, q, r)))
            (inr (IsShown-last c.entry v.items [])),
        push_required-IsServed rest (push c.entry v) x (ground (arith, e, q, r)),
      )
      | inr r ↦ ground (arith, e, q, r)
    ]
    | inr q ↦ (inl q, push_required-IsServed rest v x (ground (arith, e, q)))
  ]

  try_item-Continues : (c : Candidate) (v : View) → Continues v.items (try_item b c v).items
  unfolding try_item
  try_item-Continues c v = elim (Bool-cases c.required) [
    | inl q ↦ rw q ([], sym (append-nil v.items))
    | inr q ↦ elim (Bool-cases (valid b (push c.entry v))) [
      | inl r ↦ rw (q, r) (c.entry ∷ [], refl)
      | inr r ↦ rw (q, r) ([], sym (append-nil v.items))
    ]
  ]

  try_key-Continues :
      (legacy : Memory) (key : Text) (v : View) → Continues v.items (try_key b legacy key v).items
  unfolding try_key
  try_key-Continues legacy key v =
      elim (Bool-cases
        (valid b (record v { memory = assign key (value_at legacy key) v.memory }))) [
          | inl r ↦ rw r ([], sym (append-nil v.items))
          | inr r ↦ rw r ([], sym (append-nil v.items))
        ]

  pub fill-Continues :
      (legacy : Memory) (rest : List Candidate) (keys : List Text) (v : View)
      → Continues v.items (fill b legacy rest keys v).items
  unfolding fill
  fill-Continues legacy [] [] v = ([], sym (append-nil v.items))
  fill-Continues legacy (c ∷ rest) [] v =
      Continues-trans v.items _ _ (try_item-Continues c v)
        (fill-Continues legacy rest [] (try_item b c v))
  fill-Continues legacy [] (key ∷ keys) v =
      Continues-trans v.items _ _ (try_key-Continues legacy key v)
        (fill-Continues legacy [] keys (try_key b legacy key v))
  fill-Continues legacy (c ∷ rest) (key ∷ keys) v =
      Continues-trans v.items _ _ (try_item-Continues c v) (
        Continues-trans (try_item b c v).items _ _ (try_key-Continues legacy key (try_item b c v))
          (fill-Continues legacy rest keys (try_key b legacy key (try_item b c v))))

-- A projection of the context that returns stands within its policy: at most `max_items` items and
-- pairs, at most `max_bytes` bytes, and it passes the backend's test of fit; its items are deposits of
-- the candidates and its pairs are the legacy memory's; and every required candidate is shown.
pub project_memory-IsWithin :
    (b : Bounds) (s : Snapshot) (cs : Candidates) (policy : MemoryPolicy) (v : View)
    → project_memory b s cs policy ≡ ok v
    → IsWithin b policy s.memory cs.entries v × All (IsServed v) cs.entries
unfolding project_memory
project_memory-IsWithin b s cs policy v e =
    let (passed, rest) = check-bind (policy_ok policy) guarded e in
    let (fixed, rest) =
      guard-bind (valid b start) (overflow "memory pressure: fixed context exceeds budget") body
        rest in
    let (v0, served, end) = >>=-eq-ok (push_required b cs.entries start) finish rest in
    let within =
      push_required-IsWithin b policy s.memory cs.entries cs.entries start v0 among
        (record { is_valid = fixed; keeps_policy = refl; offered = tt; copied = tt }) served in
    subst (λ x. IsWithin b policy s.memory cs.entries x × All (IsServed x) cs.entries)
      (ok-injective (fill b s.memory cs.entries keys v0) v end)
      (
        fill-IsWithin b policy s.memory cs.entries cs.entries keys v0 among within,
        All-weaken cs.entries
            (λ c.
              Continues-IsServed v0 (fill b s.memory cs.entries keys v0) c
                (fill-Continues b s.memory cs.entries keys v0))
            (push_required-IsServed b cs.entries start v0 served),
      )
  where
    start : View
    start = fixed_view s cs policy

    keys : List Text
    keys = sorted_keys b.dump s.memory policy.query

    among : All (λ c. IsAmong cs.entries c.entry) cs.entries
    among = IsAmong-itself cs.entries

    finish : View → Result View
    finish v0 = ok (fill b s.memory cs.entries keys v0)

    body : Result View
    body = push_required b cs.entries start >>= finish

    guarded : Result View
    guarded =
        (if valid b start
          then ok tt
          else err (overflow "memory pressure: fixed context exceeds budget"))
        >> body
