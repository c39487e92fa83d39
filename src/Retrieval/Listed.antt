-- ===== src/Retrieval/Listed.antt =====
-- What the lanes of src/memory.cpp list of the open tasks.
use cogg_cpp.Base.{
  ℕ, suc, zero, ◌≤◌, ◌≡◌, refl, sym, ap, ◌∙◌, List, [], ◌∷◌, ◌&&◌, Bool, true, false, ltb,
  if◌then◌else◌, length, any, keep, take, sort_by, any-sort_by, if-cases, ◌⊎◌, Text, codes, text_eq,
  overflow, Result, ok, err, Bool-cases, >>=-eq-ok, ok-injective, subst, inl, inr, arith,
}
use cogg_cpp.Proposal.{has_type}
use cogg_cpp.Memory.{Entry, MemoryDb}
use cogg_cpp.Retrieval.{MemoryPolicy, Wire, any_stale, is_version, wire_at, protects_tasks}
use cogg_cpp.Retrieval.Lanes.{collect, is_open_task, open_task_rows, oldest_first}
use cogg_cpp.Retrieval.Candidates.{mandatory_wires, task_wires, maintenance_wires}

abbrev pub row_has : Text → Entry → Bool
row_has id e = text_eq e.id id

abbrev pub wire_has : Text → Wire → Bool
wire_has id w = text_eq w.id id

any-keep {ℓ} :
    {A : Type ℓ} (p q : A → Bool) (xs : List A) → any p (keep q xs) ≡ any (λ x. q x && p x) xs
any-keep p q [] = refl
any-keep p q (x ∷ xs) = ground (arith, any-keep p q xs)

take_all {ℓ} :
    {A : Type ℓ} (n : ℕ) (xs : List A) → length (take (suc n) xs) ≤ n → take (suc n) xs ≡ xs
take_all n [] h = refl
take_all zero (x ∷ xs) h = elim absurd [ ]
  where
    absurd : ⊥
    absurd = omega (arith, h)
take_all (suc n) (x ∷ xs) h = ap (λ ys. x ∷ ys) (take_all n xs (omega (arith, h)))

-- Lists of one length, with the same ids.
abbrev SameIds : List Entry → List Wire → Type 0
SameIds rows ws =
    (length ws ≡ length rows) × ((id : Text) → any (wire_has id) ws ≡ any (row_has id) rows)

module _ (entries : List Entry) (subject : Text) (at : ℕ) where
  wire_at-id : (e : Entry) (w : Wire) → wire_at entries subject e at ≡ ok w → w.id ≡ e.id
  unfolding wire_at
  wire_at-id e w h =
      let (stale, computed, end) =
        >>=-eq-ok
          (if has_type e.note (codes "summary")
            then any_stale entries subject at e.note.sources
            else ok false)
          (λ stale. ok (shown stale)) h in
      sym (ap (λ x. x.id) (ok-injective (shown stale) w end))
    where
      shown : Bool → Wire
      shown stale = record {
        note = e.note;
        id = e.id;
        commit = e.commit;
        tick = e.tick;
        current = is_version entries subject at e;
        summary_stale = stale;
      }

  -- What is collected has the length and the ids of the rows.
  collect-rows :
      (rows : List Entry) (ws : List Wire)
      → collect entries subject at rows ≡ ok ws
      → SameIds rows ws
  unfolding collect
  collect-rows [] ws h = subst (SameIds []) (ok-injective [] ws h) (refl, λ id. refl)
  collect-rows (e ∷ rows) ws h =
      let (w, shown, h) = >>=-eq-ok (wire_at entries subject e at) _ h in
      let (rest, collected, h) = >>=-eq-ok (collect entries subject at rows) _ h in
      let (sizes, ids) = collect-rows rows rest collected in
      subst (SameIds (e ∷ rows)) (ok-injective (w ∷ rest) ws h)
        (ap suc sizes, λ id. ground (arith, ap (λ i. text_eq i id) (wire_at-id e w shown), ids id))

-- The open tasks are all listed, when they are at most as many as the policy allows.
task_wires-ids :
    (db : MemoryDb) (subject : Text) (p : MemoryPolicy) (at : ℕ) (ws : List Wire)
    → task_wires db subject p at ≡ ok ws
    → (id : Text)
    → any (wire_has id) ws ≡ any (λ e. is_open_task db subject e && row_has id e) db.entries
unfolding task_wires open_task_rows
task_wires-ids db subject p at ws h id =
    let (ws', collected, h) = >>=-eq-ok (collect db.entries subject at rows) next h in
    let (few, same) = fits ws' (Bool-cases (ltb p.max_items (length ws'))) h in
    let (sizes, ids) = collect-rows db.entries subject at rows ws' collected in
    ap (any (wire_has id)) (sym same)
    ∙ ids id
    ∙ ap (any (row_has id)) (take_all p.max_items sorted (omega (arith, sizes, few)))
    ∙ any-sort_by oldest_first (row_has id) (keep (is_open_task db subject) db.entries)
    ∙ any-keep (row_has id) (is_open_task db subject) db.entries
  where
    sorted : List Entry
    sorted = sort_by oldest_first (keep (is_open_task db subject) db.entries)

    rows : List Entry
    rows = open_task_rows db subject (suc p.max_items)

    next : List Wire → Result (List Wire)
    next ws' =
        if ltb p.max_items (length ws')
        then err (overflow "memory pressure: too many open tasks")
        else ok ws'

    fits :
        (ws' : List Wire)
        → (ltb p.max_items (length ws') ≡ true) ⊎ (ltb p.max_items (length ws') ≡ false)
        → next ws' ≡ ok ws
        → (length ws' ≤ p.max_items) × (ws' ≡ ws)
    fits ws' (inl q) h = ground (arith, q, h)
    fits ws' (inr q) h = (ground (arith, q), ok-injective ws' ws (ground (arith, q, h)))

pub mandatory_wires-ids :
    (db : MemoryDb) (subject : Text) (p : MemoryPolicy) (at : ℕ) (ws : List Wire)
    → protects_tasks p ≡ true
    → mandatory_wires db subject p at ≡ ok ws
    → (id : Text)
    → any (wire_has id) ws ≡ any (λ e. is_open_task db subject e && row_has id e) db.entries
unfolding mandatory_wires
mandatory_wires-ids db subject p at ws protected h =
    elim (if-cases (protects_tasks p) (task_wires db subject p at)
      (maintenance_wires db subject p at) h) [
        | inl (q, k) ↦ task_wires-ids db subject p at ws k
        | inr (q, k) ↦ λ id. cc
      ]
