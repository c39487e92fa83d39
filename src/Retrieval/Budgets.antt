-- ===== src/Retrieval/Budgets.antt =====
-- What `project_memory` of src/memory.cpp returns stands within the budget of its policy.
use cogg_cpp.Base.{
  ◌≡◌, refl, ◌⊎◌, inl, inr, List, [], ◌∷◌, true, All, All-weaken, All-append, Text, ok,
  ok-injective, Bool-cases, subst, arith,
}
use cogg_cpp.Store.{Memory, assign}
use cogg_cpp.Retrieval.{MemoryPolicy, Wire}
use cogg_cpp.Retrieval.Candidates.{Candidate}
use cogg_cpp.Retrieval.Project.{
  View, Bounds, valid, push, push_required, value_at, try_item, try_key, fill,
}

-- The deposit of one of the candidates, and a pair as the memory has it.
abbrev pub IsAmong : List Candidate → Wire → Type 0
IsAmong [] w = ⊥
IsAmong (c ∷ cs) w = (c.entry ≡ w) ⊎ IsAmong cs w

abbrev pub IsCopied : Memory → (Text × Text) → Type 0
IsCopied legacy kv = kv.1 ≡ value_at legacy kv.0

-- A view within the budget, made of what the caller had.
pub record IsWithin (b : Bounds) (policy : MemoryPolicy) (legacy : Memory) (cs : List Candidate)
    (v : View) : Type 0 where
  pub is_valid : valid b v ≡ true
  pub keeps_policy : v.policy ≡ policy
  pub offered : All (IsAmong cs) v.items
  pub copied : All (IsCopied legacy) v.memory

assign-All :
    (legacy : Memory) (k x : Text) (m : Memory)
    → IsCopied legacy (k, x)
    → All (IsCopied legacy) m
    → All (IsCopied legacy) (assign k x m)
unfolding assign
assign-All legacy k x [] h hs = (h, tt)
assign-All legacy k x ((j, w) ∷ m) h (h0, hs) =
    ground (arith, assign-All legacy k x m h hs, h0, h, hs)

module _ (b : Bounds) (policy : MemoryPolicy) (legacy : Memory) (cs : List Candidate) where
  push-IsWithin :
      (w : Wire) (v : View)
      → valid b (push w v) ≡ true
      → IsAmong cs w
      → IsWithin b policy legacy cs v
      → IsWithin b policy legacy cs (push w v)
  push-IsWithin w v h m k = record {
    is_valid = h;
    keeps_policy = k.keeps_policy;
    offered = All-append (IsAmong cs) v.items w k.offered m;
    copied = k.copied;
  }

  pub push_required-IsWithin :
      (rest : List Candidate) (v x : View)
      → All (λ c. IsAmong cs c.entry) rest
      → IsWithin b policy legacy cs v
      → push_required b rest v ≡ ok x
      → IsWithin b policy legacy cs x
  unfolding push_required
  push_required-IsWithin [] v x m k e = subst (IsWithin b policy legacy cs) (ok-injective v x e) k
  push_required-IsWithin (c ∷ rest) v x (m, ms) k e = elim (Bool-cases c.required) [
    | inl q ↦ elim (Bool-cases (valid b (push c.entry v))) [
      | inl r ↦
          push_required-IsWithin rest (push c.entry v) x ms (push-IsWithin c.entry v r m k)
            (ground (arith, e, q, r))
      | inr r ↦ ground (arith, e, q, r)
    ]
    | inr q ↦ push_required-IsWithin rest v x ms k (ground (arith, e, q))
  ]

  try_item-IsWithin :
      (c : Candidate) (v : View)
      → IsAmong cs c.entry
      → IsWithin b policy legacy cs v
      → IsWithin b policy legacy cs (try_item b c v)
  unfolding try_item
  try_item-IsWithin c v m k = elim (Bool-cases c.required) [
    | inl q ↦ rw q k
    | inr q ↦ elim (Bool-cases (valid b (push c.entry v))) [
      | inl r ↦ rw (q, r) (push-IsWithin c.entry v r m k)
      | inr r ↦ rw (q, r) k
    ]
  ]

  try_key-IsWithin :
      (key : Text) (v : View)
      → IsWithin b policy legacy cs v
      → IsWithin b policy legacy cs (try_key b legacy key v)
  unfolding try_key
  try_key-IsWithin key v k = elim (Bool-cases (valid b w)) [
    | inl r ↦ rw r (record {
      is_valid = r;
      keeps_policy = k.keeps_policy;
      offered = k.offered;
      copied = assign-All legacy key (value_at legacy key) v.memory refl k.copied;
    })
    | inr r ↦ rw r k
  ]
    where
      w : View
      w = record v { memory = assign key (value_at legacy key) v.memory }

  pub fill-IsWithin :
      (rest : List Candidate) (keys : List Text) (v : View)
      → All (λ c. IsAmong cs c.entry) rest
      → IsWithin b policy legacy cs v
      → IsWithin b policy legacy cs (fill b legacy rest keys v)
  unfolding fill
  fill-IsWithin [] [] v m k = k
  fill-IsWithin (c ∷ rest) [] v (m, ms) k =
      fill-IsWithin rest [] (try_item b c v) ms (try_item-IsWithin c v m k)
  fill-IsWithin [] (key ∷ keys) v m k =
      fill-IsWithin [] keys (try_key b legacy key v) m (try_key-IsWithin key v k)
  fill-IsWithin (c ∷ rest) (key ∷ keys) v (m, ms) k =
      fill-IsWithin rest keys (try_key b legacy key (try_item b c v)) ms
        (try_key-IsWithin key _ (try_item-IsWithin c v m k))

pub IsAmong-itself : (cs : List Candidate) → All (λ c. IsAmong cs c.entry) cs
IsAmong-itself [] = tt
IsAmong-itself (c ∷ cs) = (inl refl, All-weaken cs (λ d h. inr h) (IsAmong-itself cs))
