-- ===== src/SelfState/Settled.antt =====
-- What the loop of `replay` in src/self_state.cpp keeps from one commit to the next.
use cogg_cpp.Base.{
  ◌==◌, ◌≡◌, refl, sym, ap, ◌∙◌, subst, inl, inr, List, [], ◌∷◌, ◌++◌, not, find, pos, Option, none,
  some, Text, text_eq, ok, err, ok-injective, require-bind, check-bind, row-bind, >>=-eq-ok,
  if-cases, ◌>>=◌,
}
use cogg_cpp.Proposal.{Proposal, validate}
use cogg_cpp.Store
use cogg_cpp.Store.{Codec, Body, Memory, AttemptRow, CommitRow, CommitBody}
use cogg_cpp.SelfState.{
  profile_key, profile_valid, at_key, State, Packet, Documents, view_of, grant_valid,
  grant_unused_ids,
}
use cogg_cpp.SelfState.Apply.{revision_eq, protected_write}
use cogg_cpp.SelfState.Guard.{find_packet, admitted_occasion}
use cogg_cpp.SelfState.Kept.{AreKept, AreKept-refl, AreKept-trans, apply-AreKept}
use cogg_cpp.SelfState.Replay.{
  Replayed, check_genesis_keys, replay_genesis, replay_packet, replay_content, replay_transition,
  replay_body, replay_commit, replay_commits,
}

module _ (d : Documents) (codec : Codec) (subject : Text) (attempts : List AttemptRow) where
  replay_genesis-AreKept :
      (id : Text) (memory : Memory) (state next : State)
      → replay_genesis d id memory state ≡ ok next
      → AreKept state next
  unfolding replay_genesis
  replay_genesis-AreKept id memory state next h =
      let (q, h) = check-bind (check_genesis_keys memory) _ h in
      let (value, q, h) = row-bind (at_key profile_key memory) _ _ h in
      let (p, q, h) = row-bind (d.read_profile value) _ _ h in
      let (q, h) = check-bind (profile_valid d p) _ h in
      let (q, h) = require-bind (revision_eq p.revision (pos 0)) _ _ h in
      subst (AreKept state)
        (ok-injective (record state { profile = p; profile_version = id }) next h)
        (AreKept-refl state)

  replay_packet-AreKept :
      (a : Store.AttemptBody) (id : Text) (p : Proposal) (packet : Packet) (r : Replayed)
      (next : State)
      → replay_packet d codec subject a id p packet r ≡ ok next
      → AreKept r.state next
  unfolding replay_packet
  replay_packet-AreKept a id p packet r next h =
      let (before, q, h) = >>=-eq-ok (view_of d r.state subject r.head) _ h in
      let (occasion, q, h) = >>=-eq-ok (admitted_occasion a) _ h in
      let (q, h) = check-bind (grant_valid d codec packet.grant before occasion) _ h in
      let (q, h) = check-bind (grant_unused_ids r.state packet.grant.create) _ h in
      let (q, h) = require-bind _ _ _ h in apply-AreKept d r.state next p packet.grant id h

  replay_content-AreKept :
      (a : Store.AttemptBody) (id : Text) (p : Proposal) (content : Option Text) (r : Replayed)
      (next : State)
      → replay_content d codec subject a id p content r ≡ ok next
      → AreKept r.state next
  unfolding replay_content
  replay_content-AreKept a id p none r next h =
      let (q, h) = require-bind (not (protected_write p)) _ _ h in
      subst (AreKept r.state) (ok-injective r.state next h) (AreKept-refl r.state)
  replay_content-AreKept a id p (some content) r next h =
      let (packet, q, h) =
        row-bind (d.read_packet content) _ (λ packet. replay_packet d codec subject a id p packet r)
          h in
      replay_packet-AreKept a id p packet r next h

  replay_transition-AreKept :
      (id : Text) (b : CommitBody) (r : Replayed) (next : State)
      → replay_transition d codec subject attempts id b r ≡ ok next
      → AreKept r.state next
  unfolding replay_transition
  replay_transition-AreKept id b r next h =
      let (q, h) = check-bind (validate b.proposal) _ h in
      let (row, q, h) = row-bind (find (λ a. text_eq a.id b.attempt) attempts) _ _ h in
      let (content, q, h) = >>=-eq-ok (find_packet none row.body.inputs) _ h in
      replay_content-AreKept row.body id b.proposal content r next h

  replay_body-AreKept :
      (id : Text) (body : Body) (r : Replayed) (next : State)
      → replay_body d codec subject attempts id body r ≡ ok next
      → AreKept r.state next
  unfolding replay_body
  replay_body-AreKept id (Body.genesis g) r next h =
      replay_genesis-AreKept id g.memory r.state next h
  replay_body-AreKept id (Body.commit b) r next h =
      elim (if-cases (b.tick == 0) (replay_genesis d id b.memory r.state)
        (replay_transition d codec subject attempts id b r) h) [
          | inl (q, k) ↦ replay_genesis-AreKept id b.memory r.state next k
          | inr (q, k) ↦ replay_transition-AreKept id b r next k
        ]
  replay_body-AreKept id (Body.event e) r next h = cc
  replay_body-AreKept id (Body.attempt e) r next h = cc
  replay_body-AreKept id (Body.abstention e) r next h = cc
  replay_body-AreKept id (Body.input e) r next h = cc

  replay_commits-AreKept :
      (rows : List CommitRow) (r next : Replayed)
      → replay_commits d codec subject attempts rows r ≡ ok next
      → AreKept r.state next.state
  unfolding replay_commits replay_commit
  replay_commits-AreKept [] r next h =
      subst (λ x. AreKept r.state x.state) (ok-injective r next h) (AreKept-refl r.state)
  replay_commits-AreKept (c ∷ rows) r next h =
      let (mid, first, h) =
        >>=-eq-ok (replay_commit d codec subject attempts c r)
          (replay_commits d codec subject attempts rows) h in
      let (state, q, first) =
        >>=-eq-ok (replay_body d codec subject attempts c.id c.body r) _ first in
      let (view, k, first) = >>=-eq-ok (view_of d state subject c.id) _ first in
      AreKept-trans r.state mid.state next.state
        (subst (AreKept r.state) (ap (λ x. x.state) (ok-injective _ mid first))
          (replay_body-AreKept c.id c.body r state q))
        (replay_commits-AreKept rows mid next h)

  -- The loop over two histories in turn.
  pub replay_commits-append :
      (xs ys : List CommitRow) (r : Replayed)
      → replay_commits d codec subject attempts (xs ++ ys) r ≡ (
          replay_commits d codec subject attempts xs r
          >>= replay_commits d codec subject attempts ys)
  unfolding replay_commits
  replay_commits-append [] ys r = refl
  replay_commits-append (c ∷ xs) ys r =
      elim (replay_commit d codec subject attempts c r)
        as (λ x. (x >>= replay_commits d codec subject attempts (xs ++ ys)) ≡ (
          (x >>= replay_commits d codec subject attempts xs)
          >>= replay_commits d codec subject attempts ys)) [
            | ok next ↦ replay_commits-append xs ys next
            | err e ↦ refl
          ]

  -- When a history can be replayed, so can what came before any of its commits, and every commitment
  -- that there was then is one at the end, with its terms, and exactly as it was if it had been
  -- settled: the id of a settled commitment is never used again.
  pub replay_commits-AreSettled :
      (earlier later : List CommitRow) (r next : Replayed)
      → replay_commits d codec subject attempts (earlier ++ later) r ≡ ok next
      → (mid : Replayed) × (replay_commits d codec subject attempts earlier r ≡ ok mid)
        × AreKept mid.state next.state
  replay_commits-AreSettled earlier later r next h =
      let (mid, first, rest) =
        >>=-eq-ok (replay_commits d codec subject attempts earlier r)
          (replay_commits d codec subject attempts later)
          (sym (replay_commits-append earlier later r) ∙ h) in
      (mid, first, replay_commits-AreKept later mid next rest)
