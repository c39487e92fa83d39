-- ===== src/SelfState/Refined.antt =====
-- After a step, the cache of `SelfRuntime` in src/self_state.cpp is what a replay would find.
use cogg_cpp.Base.{
  ℕ, ◌≡◌, ◌≤◌, refl, sym, ap, ◌∙◌, subst, ◌⊎◌, inl, inr, List, [], ◌∷◌, ◌++◌, length, Option, some,
  Text, text_eq, text_eq_refl, codes, ℤ, ok, ok-injective, >>=-eq-ok,
}
use cogg_cpp.Proposal.{Proposal, null_proposal}
use cogg_cpp.Store.{Body, AttemptRow, CommitRow, CommitBody, Snapshot}
use cogg_cpp.Runtime.{StepResult}
use cogg_cpp.SelfState.{State, View, Grant, Documents, at_key, view_of}
use cogg_cpp.SelfState.Apply.{apply, apply_memory, apply_notes}
use cogg_cpp.SelfState.Load.{CachedSubject, Cache, put, Host, choose_grant, content_of}
use cogg_cpp.SelfState.Step.{advance_committed, advance_disposed, advance}
use cogg_cpp.SelfState.Cached.{IsReplayed, IsRecorded, packet_for, replay_commit-apply}

-- A settlement of `Store::fail`: it changes nothing but, where a wake is pending, when it comes.
abbrev pub IsSettlement : Proposal → Type 0
IsSettlement p = (wake : Option ℤ) × (p ≡ record null_proposal { wake_after_ms = wake })

apply-IsSettlement :
    (d : Documents) (state : State) (g : Grant) (version : Text) (p : Proposal)
    → IsSettlement p
    → apply d state p g version ≡ ok state
unfolding apply apply_memory apply_notes
apply-IsSettlement d state g version p (wake, same) = ap (λ x. apply d state x g version) same

at_key-put :
    (subject : Text) (c : CachedSubject) (cache : Cache)
    → at_key subject (put subject c cache) ≡ some c
at_key-put subject c cache = rw (text_eq_refl subject) refl

-- The state that a cache has, with the call that made it.
abbrev Puts : Documents → Text → State → Grant → Proposal → Text → Cache → Type 0
Puts d subject state g p head next =
    (after : State) × (view : View) × (apply d state p g head ≡ ok after)
    × (view_of d after subject head ≡ ok view)
    × (at_key subject next ≡ some (record { head = head; state = after; view = view }))

committed-put :
    (d : Documents) (subject : Text) (state : State) (g : Grant) (p : Proposal) (head : Text)
    (cache next : Cache)
    → advance_committed d subject state g head cache p ≡ ok next
    → Puts d subject state g p head next
unfolding advance_committed
committed-put d subject state g p head cache next h =
    let (after, applied, h) = >>=-eq-ok (apply d state p g head) _ h in
    let (view, viewed, h) = >>=-eq-ok (view_of d after subject head) _ h in
    (
      after,
      view,
      applied,
      viewed,
      subst (λ x. at_key subject x ≡ some (entry after view))
          (ok-injective (put subject (entry after view) cache) next h)
          (at_key-put subject (entry after view) cache),
    )
  where
    entry : State → View → CachedSubject
    entry after view = record { head = head; state = after; view = view }

disposed-put :
    (d : Documents) (subject : Text) (state : State) (g : Grant) (p : Proposal) (head : Text)
    (cache next : Cache)
    → IsSettlement p
    → advance_disposed d subject state head cache ≡ ok next
    → Puts d subject state g p head next
unfolding advance_disposed
disposed-put d subject state g p head cache next null h =
    let (view, viewed, h) = >>=-eq-ok (view_of d state subject head) _ h in
    (
      state,
      view,
      apply-IsSettlement d state g head p null,
      viewed,
      subst (λ x. at_key subject x ≡ some (entry view))
          (ok-injective (put subject (entry view) cache) next h)
          (at_key-put subject (entry view) cache),
    )
  where
    entry : View → CachedSubject
    entry view = record { head = head; state = state; view = view }

-- How the attempt ended: with a commit of the proposal that the guard let through, or with a
-- disposition, which commits a settlement, whatever the backend had proposed.
abbrev pub Settles : Option Proposal → Proposal → StepResult → Type 0
Settles validated p out =
    ((out.status ≡ codes "committed") × (validated ≡ some p))
    ⊎ ((out.status ≡ codes "disposed") × IsSettlement p)

-- What `advance` puts into the cache.
advance-put :
    (d : Documents) (subject : Text) (state : State) (g : Grant) (validated : Option Proposal)
    (p : Proposal) (out : StepResult) (cache next : Cache) (snap : Snapshot)
    → Settles validated p out
    → out.snapshot ≡ some snap
    → advance d subject state g validated out cache ≡ ok next
    → Puts d subject state g p snap.head next
unfolding advance text_eq
advance-put d subject state g validated p out cache next snap (inl (status, let_through)) found h =
    committed-put d subject state g p snap.head cache next (sym committed ∙ h)
  where
    committed :
        advance d subject state g validated out cache
        ≡ advance_committed d subject state g snap.head cache p
    committed =
        rw
          (
            found,
            let_through,
            ap (λ x. text_eq x (codes "conflict")) status,
            ap (λ x. text_eq x (codes "disposed")) status,
            ap (λ x. text_eq x (codes "committed")) status,
          )
          refl
advance-put d subject state g validated p out cache next snap (inr (status, null)) found h =
    disposed-put d subject state g p snap.head cache next null (sym disposed ∙ h)
  where
    disposed :
        advance d subject state g validated out cache
        ≡ advance_disposed d subject state snap.head cache
    disposed =
        rw
          (
            found,
            ap (λ x. text_eq x (codes "conflict")) status,
            ap (λ x. text_eq x (codes "disposed")) status,
          )
          refl

-- When what the cache has of a subject is what a replay of its commits leaves, a grant was checked
-- against it, the store has the attempt with the packet of that grant and the commit of a valid
-- proposal for it, and the step ended with a commit of the proposal that its guard let through or with
-- a disposition, whose settlement keeps no more than a pending wake, then what the step puts into the
-- cache, if it puts it, is what a replay of the commits and the new one leaves. It needs a packet that
-- is read back as it was written and a prompt of at most 2048 bytes.
pub advance-IsReplayed :
    (h : Host) (subject : Text) (attempts : List AttemptRow) (rows : List CommitRow)
    (c : CachedSubject) (grant : Option Grant) (g : Grant) (occasion : Option Text) (b : CommitBody)
    (validated : Option Proposal) (t : ℕ) (out : StepResult) (snap : Snapshot) (cache next : Cache)
    → IsReplayed h.documents h.codec subject attempts rows c
    → choose_grant h c occasion grant ≡ ok g
    → IsRecorded h attempts c g occasion b
    → h.documents.read_packet (content_of h c.view g) ≡ some (packet_for h c g)
    → length h.contract ≤ 2048
    → Settles validated b.proposal out
    → out.snapshot ≡ some snap
    → advance h.documents subject c.state g validated out cache ≡ ok next
    → (c' : CachedSubject) × (at_key subject next ≡ some c')
      × IsReplayed h.documents h.codec subject attempts
          (rows
            ++ record { id = snap.head; subject = subject; tick = t; body = Body.commit b } ∷ [])
          c'
advance-IsReplayed h subject attempts rows c grant g occasion b validated t out snap cache next
      replayed chosen made read short status found k =
    let (after, view, applied, viewed, stored) =
      advance-put h.documents subject c.state g validated b.proposal out cache next snap status
        found k in
    (
      record { head = snap.head; state = after; view = view },
      stored,
      replay_commit-apply h subject attempts rows c g occasion grant b snap.head t after view
          replayed chosen made read short applied viewed,
    )
