-- ===== src/Retrieval/Required.antt =====
-- What `add` and `merge` of src/memory.cpp keep of the required candidates.
use cogg_cpp.Base.{
  any-append, any-all, any-last, all-last, ℕ, suc, zero, ◌≡◌, refl, List, [], ◌∷◌, ◌&&◌, Bool, true,
  false, any, all, get_elem?, none, some, Text, codes, text_eq_refl, text_eq→eq, Bool-cases, subst,
  inl, inr, arith,
}
use cogg_cpp.Retrieval.{uses, MemoryPolicy, Wire}
use cogg_cpp.Retrieval.Candidates.{
  rounds_of, Candidate, has_candidate, add, add_all, add_at, Lanes, merge_round, merge_rounds,
  merge,
}
use cogg_cpp.Retrieval.Listed.{wire_has}

-- What has been added, by id and as required.
abbrev pub task_at : Text → Candidate → Bool
task_at id c = c.required && has_candidate id c

any-add :
    (q : Candidate → Bool) (x : Wire) (required : Bool) (lane : Text) (cs : List Candidate)
    → any q cs ≡ true
    → any q (add x required lane cs) ≡ true
unfolding add
any-add q x required lane cs h = elim (Bool-cases (any (has_candidate x.id) cs)) [
  | inl r ↦ rw r h
  | inr r ↦ rw r (any-append q cs _ h)
]

any-add_all :
    (q : Candidate → Bool) (ws : List Wire) (required : Bool) (lane : Text) (cs : List Candidate)
    → any q cs ≡ true
    → any q (add_all ws required lane cs) ≡ true
unfolding add_all
any-add_all q [] required lane cs h = h
any-add_all q (x ∷ ws) required lane cs h =
    any-add_all q ws required lane (add x required lane cs) (any-add q x required lane cs h)

any-add_at :
    (q : Candidate → Bool) (ws : List Wire) (i : ℕ) (lane : Text) (cs : List Candidate)
    → any q cs ≡ true
    → any q (add_at ws i lane cs) ≡ true
unfolding add_at
any-add_at q ws i lane cs h =
    elim (get_elem? ws i)
      as (λ o. any q (elim o [ none ↦ cs | some x ↦ add x false lane cs ]) ≡ true) [
        | none ↦ h
        | some x ↦ any-add q x false lane cs h
      ]

any-merge_round :
    (q : Candidate → Bool) (semantic : Bool) (l : Lanes) (i : ℕ) (cs : List Candidate)
    → any q cs ≡ true
    → any q (merge_round semantic l i cs) ≡ true
unfolding merge_round
any-merge_round q true l i cs h =
    any-add_at q l.proc i _ _ (any-add_at q l.lex i _ _ (any-add_at q l.sem i _ cs h))
any-merge_round q false l i cs h =
    any-add_at q l.recent i _ _
      (any-add_at q l.proc i _ _ (any-add_at q l.sem i _ _ (any-add_at q l.lex i _ cs h)))

any-merge_rounds :
    (q : Candidate → Bool) (semantic : Bool) (l : Lanes) (n i : ℕ) (cs : List Candidate)
    → any q cs ≡ true
    → any q (merge_rounds semantic l n i cs) ≡ true
unfolding merge_rounds
any-merge_rounds q semantic l zero i cs h = h
any-merge_rounds q semantic l (suc n) i cs h =
    any-merge_rounds q semantic l n (suc i) _ (any-merge_round q semantic l i cs h)

-- As long as all that has been added is required, adding a required deposit makes its id a required
-- one.
add-task :
    (x : Wire) (lane : Text) (cs : List Candidate)
    → all (λ c. c.required) cs ≡ true
    → (all (λ c. c.required) (add x true lane cs) ≡ true)
      × (any (task_at x.id) (add x true lane cs) ≡ true)
unfolding add
add-task x lane cs h = elim (Bool-cases (any (has_candidate x.id) cs)) [
  | inl r ↦ rw r (h, any-all (λ c. c.required) (has_candidate x.id) cs h r)
  | inr r ↦
      rw r
        (all-last (λ c. c.required) cs _ h refl, any-last (task_at x.id) cs _ (text_eq_refl x.id))
]

add_all-task :
    (ws : List Wire) (lane : Text) (cs : List Candidate) (id : Text)
    → all (λ c. c.required) cs ≡ true
    → any (wire_has id) ws ≡ true
    → any (task_at id) (add_all ws true lane cs) ≡ true
unfolding add_all
add_all-task [] lane cs id h k = cc
add_all-task (x ∷ ws) lane cs id h k =
    let (required, here) = add-task x lane cs h in
    elim (Bool-cases (wire_has id x)) [
      | inl q ↦
          any-add_all (task_at id) ws true lane _
            (subst (λ i. any (task_at i) (add x true lane cs) ≡ true) (text_eq→eq x.id id q) here)
      | inr q ↦ add_all-task ws lane _ id required (ground (arith, q, k))
    ]

pub merge-task :
    (p : MemoryPolicy) (l : Lanes) (id : Text)
    → any (wire_has id) l.mandatory ≡ true
    → any (task_at id) (merge p l) ≡ true
unfolding merge
merge-task p l id h =
    any-merge_rounds (task_at id) (uses p (codes "semantic")) l (rounds_of l) 0
      (add_all l.mandatory true (codes "open_task") [])
      (add_all-task l.mandatory (codes "open_task") [] id refl h)
