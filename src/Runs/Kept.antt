-- ===== src/Runs/Kept.antt =====
-- What the updates of src/kernel.cpp leave alone: the subjects with their limits, and who was
-- admitted when. `enqueue`, `submit` and `create` add no admission.
use cogg_cpp.Base.{
  ℕ, ◌<◌, ◌≡◌, refl, sym, subst, List, [], ◌∷◌, not, map, false, inl, inr, Option-cases, any, find,
  Text, text_eq, ℤ, pos, negsuc, ok, require-bind, >>=-eq-ok, ok-injective, arith,
}
use cogg_cpp.Budget.{Limits, Config, limits_json, check_time}
use cogg_cpp.Proposal.{text_fits}
use cogg_cpp.Store.{
  State, Codec, GenesisBody, SubjectRow, AttemptRow, OccasionKind, Payload, Snapshot, Memory,
  snapshot, update_subject, update_attempt,
}
use cogg_cpp.Store.Schedule.{clock}
use cogg_cpp.Store.Inbox.{create, submit, enqueue, insert_genesis, insert_occasion, is_keyed}
use cogg_cpp.Store.Commit.{supersede_attempts}
use cogg_cpp.Runs.Accounts.{Owner, owner, trace, owners, traces, is_owned, AreAccounted, new_owner}

-- Two states with the same subjects, limits and admissions.
abbrev pub Same : State → State → Type 0
Same s t = (owners t ≡ owners s) × (traces t ≡ traces s)

abbrev pub IsAccounted : State → Type 0
IsAccounted s = AreAccounted (owners s) (traces s)

pub same : (s t : State) → Same s t → IsAccounted s → IsAccounted t
same s t (o, u) h =
    subst (λ x. AreAccounted x (traces t)) (sym o) (subst (AreAccounted (owners s)) (sym u) h)

-- Updates that keep who was admitted when, and who has which limits.
pub traces-update :
    (id : Text) (f : AttemptRow → AttemptRow) (rows : List AttemptRow)
    → ((a : AttemptRow) → trace (f a) ≡ trace a)
    → map trace (update_attempt id f rows) ≡ map trace rows
unfolding update_attempt
traces-update id f [] h = refl
traces-update id f (a ∷ rest) h = ground (arith, h a, traces-update id f rest h)

pub traces-supersede :
    (subject parent : Text) (rows : List AttemptRow)
    → map trace (supersede_attempts subject parent rows) ≡ map trace rows
unfolding supersede_attempts
traces-supersede subject parent [] = refl
traces-supersede subject parent (a ∷ rest) = ground (arith, traces-supersede subject parent rest)

pub owners-update :
    (id : Text) (f : SubjectRow → SubjectRow) (rows : List SubjectRow)
    → ((r : SubjectRow) → owner (f r) ≡ owner r)
    → map owner (update_subject id f rows) ≡ map owner rows
unfolding update_subject
owners-update id f [] h = refl
owners-update id f (r ∷ rest) h = ground (arith, h r, owners-update id f rest h)

pub enqueue-Same :
    (codec : Codec) (s t : State) (snap : Snapshot) (key : Text) (kind : OccasionKind)
    (payload : Payload) (now : ℕ) (id : Text)
    → enqueue codec s snap key kind payload now ≡ ok (t, id)
    → Same s t
unfolding enqueue insert_occasion
enqueue-Same codec s t snap key kind payload now id e =
    elim (Option-cases (find (is_keyed snap.subject key) s.occasions)) [
      | inl q ↦ (ground (arith, q), ground (arith, q))
      | inr (o, q) ↦ (ground (arith, q), ground (arith, q))
    ]

pub submit-Same :
    (codec : Codec) (s t : State) (subject key payload id : Text) (now : ℤ)
    → submit codec s subject key payload now ≡ ok (t, id)
    → Same s t
unfolding submit
submit-Same codec s t subject key payload id (negsuc n) e = cc
submit-Same codec s t subject key payload id (pos at) e =
    let (fits, e1) = require-bind (text_fits key 200) _ _ e in
    let (small, e2) = require-bind _ _ _ e1 in
    let (snap, q, r) = >>=-eq-ok (snapshot s subject) _ e2 in
    enqueue-Same codec s t snap _ _ _ at id r

limits_json_period : (l : Limits) (c : Config) → limits_json l ≡ ok c → 0 < c.period_ms
unfolding limits_json
limits_json_period l c e = ground arith

no_owner :
    (rows : List SubjectRow) (id : Text)
    → any (λ r. text_eq r.id id) rows ≡ false
    → is_owned (map owner rows) id ≡ false
no_owner [] id h = refl
no_owner (r ∷ rest) id h = ground (arith, no_owner rest id)

genesis-IsAccounted :
    (codec : Codec) (g : GenesisBody) (s t : State)
    → insert_genesis codec g s ≡ ok t
    → 0 < g.limits.period_ms
    → IsAccounted s
    → IsAccounted t
unfolding insert_genesis
genesis-IsAccounted codec g s t e period h =
    let (fresh, e1) =
      require-bind (not (any (λ (r : SubjectRow). text_eq r.id g.subject) s.subjects)) _ _ e in
    let o : Owner = record { id = g.subject; limits = g.limits } in
    let os : owners t ≡ o ∷ owners s = ground arith in
    let ts : traces t ≡ traces s = ground arith in
    subst (λ x. AreAccounted x (traces t)) (sym os)
      (subst (AreAccounted (o ∷ owners s)) (sym ts)
        (new_owner o (owners s) (traces s) h (no_owner s.subjects g.subject (ground arith)) period))

pub create-IsAccounted :
    (codec : Codec) (s t : State) (subject : Text) (limits : Limits) (now : ℤ) (memory : Memory)
    (nonce : Text)
    → create codec s subject limits now memory nonce ≡ ok t
    → IsAccounted s
    → IsAccounted t
unfolding create
create-IsAccounted codec s t subject limits now memory nonce e h =
    let (size, e1) = require-bind _ _ _ e in
    let (name, e2) = require-bind (text_fits subject 128) _ _ e1 in
    let (at, clock, e3) = >>=-eq-ok (check_time now) _ e2 in
    let (l, valid, e4) = >>=-eq-ok (limits_json limits) _ e3 in
    let (u, inserted, e5) =
      >>=-eq-ok
        (insert_genesis codec
          (record {
            subject = subject;
            created_at = at;
            nonce = nonce;
            limits = l;
            memory = memory;
          })
          s)
        _ e4 in
    let (snap, found, e6) = >>=-eq-ok (snapshot u subject) _ e5 in
    let ((v, id), queued, e7) = >>=-eq-ok (enqueue codec u snap _ _ _ at) _ e6 in
    subst IsAccounted (ok-injective v t (e7)) (
      same u v (enqueue-Same codec u v snap _ _ _ at id queued)
        (genesis-IsAccounted codec _ s u inserted (limits_json_period limits l valid) h))
