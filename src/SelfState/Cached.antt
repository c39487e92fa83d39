-- ===== src/SelfState/Cached.antt =====
-- The cache of `SelfRuntime` in src/self_state.cpp stands for a replay of the history.
use cogg_cpp.Base.{
  ℕ, ◌==◌, ◌≡◌, ◌≤◌, refl, ap, ◌∙◌, subst, List, [], ◌∷◌, ◌++◌, true, false, find, length, le→leb,
  Option, none, some, Text, text_eq, text_eq_refl, ℤ, pos, negsuc, ok, ok-injective, check-bind,
  >>=-eq-ok, arith,
}
use mathlib.Core.Option.{some-injective}
use cogg_cpp.Proposal.{Proposal, validate}
use cogg_cpp.Evidence.{list_eq}
use cogg_cpp.Store
use cogg_cpp.Store.{Codec, Body, AttemptRow, CommitRow, CommitBody, Snapshot}
use cogg_cpp.SelfState.{
  producer, Task, State, View, Grant, Packet, Documents, view_of, grant_valid, grant_unused_ids,
}
use cogg_cpp.SelfState.Apply.{apply, revision_eq}
use cogg_cpp.SelfState.Guard.{find_packet, admitted_occasion, self_grant}
use cogg_cpp.SelfState.Replay.{
  Replayed, nothing_replayed, task_eq, view_eq, replay_packet, replay_content, replay_transition,
  replay_body, replay_commit, replay_commits,
}
use cogg_cpp.SelfState.Settled.{replay_commits-append}
use cogg_cpp.SelfState.Load.{CachedSubject, Host, choose_grant, content_of}

revision_eq_refl : (z : ℤ) → revision_eq z z ≡ true
revision_eq_refl (pos n) = ground arith
revision_eq_refl (negsuc n) = ground arith

tasks_eq_refl : (ts : List (Text × Task)) → list_eq task_eq ts ts ≡ true
tasks_eq_refl [] = refl
tasks_eq_refl ((k, t) ∷ ts) =
    rw (text_eq_refl k, text_eq_refl t.text, text_eq_refl t.task_status, text_eq_refl t.version)
      (tasks_eq_refl ts)

view_eq_refl : (v : View) → view_eq v v ≡ true
unfolding view_eq
view_eq_refl v =
    rw
      (
        text_eq_refl v.subject,
        text_eq_refl v.head,
        text_eq_refl v.profile.schema,
        revision_eq_refl v.profile.revision,
        text_eq_refl v.profile.app_data,
        text_eq_refl v.profile_version,
        tasks_eq_refl v.open_tasks,
      )
      (ground arith)

-- The view of what has been replayed is that of its state.
abbrev IsViewed : Documents → Text → Replayed → Type 0
IsViewed d subject r = (v : View) → r.view ≡ some v → view_of d r.state subject r.head ≡ ok v

module _ (d : Documents) (codec : Codec) (subject : Text) (attempts : List AttemptRow) where
  replay_commits-IsViewed :
      (rows : List CommitRow) (r next : Replayed)
      → IsViewed d subject r
      → replay_commits d codec subject attempts rows r ≡ ok next
      → IsViewed d subject next
  unfolding replay_commits replay_commit
  replay_commits-IsViewed [] r next k h = subst (IsViewed d subject) (ok-injective r next h) k
  replay_commits-IsViewed (c ∷ rows) r next k h =
      let (mid, first, h) =
        >>=-eq-ok (replay_commit d codec subject attempts c r)
          (replay_commits d codec subject attempts rows) h in
      let (state, q, first) =
        >>=-eq-ok (replay_body d codec subject attempts c.id c.body r) _ first in
      let (view, shown, first) = >>=-eq-ok (view_of d state subject c.id) _ first in
      replay_commits-IsViewed rows mid next
        (subst (IsViewed d subject) (ok-injective _ mid first)
          (λ v e. shown ∙ ap ok (some-injective view v e)))
        h

  -- The subject as the loop over these commits leaves it.
  abbrev pub IsReplayed : List CommitRow → CachedSubject → Type 0
  IsReplayed rows c =
      replay_commits d codec subject attempts rows nothing_replayed
      ≡ ok (record { state = c.state; head = c.head; view = some c.view })

  IsReplayed-view :
      (rows : List CommitRow) (c : CachedSubject)
      → IsReplayed rows c
      → view_of d c.state subject c.head ≡ ok c.view
  IsReplayed-view rows c h =
      replay_commits-IsViewed rows nothing_replayed
        (record { state = c.state; head = c.head; view = some c.view }) (λ v e. cc) h c.view refl

choose_grant-valid :
    (h : Host) (c : CachedSubject) (occasion : Option Text) (grant : Option Grant) (g : Grant)
    → choose_grant h c occasion grant ≡ ok g
    → (grant_valid h.documents h.codec g c.view occasion ≡ ok tt)
      × (grant_unused_ids c.state g.create ≡ ok tt)
unfolding choose_grant
choose_grant-valid h c occasion grant g k =
    let (chosen, q, k) =
      >>=-eq-ok
        (elim grant [
          | none ↦ self_grant h.documents h.codec c.view occasion [] [] none
          | some x ↦ ok x
        ])
        _ k in
    let (valid, k) = check-bind (grant_valid h.documents h.codec chosen c.view occasion) _ k in
    let (unused, k) = check-bind (grant_unused_ids c.state chosen.create) _ k in
    subst
      (λ x.
        (grant_valid h.documents h.codec x c.view occasion ≡ ok tt)
        × (grant_unused_ids c.state x.create ≡ ok tt))
      (ok-injective chosen g k) (valid, unused)

abbrev pub packet_for : Host → CachedSubject → Grant → Packet
packet_for h c g = record { schema = producer; contract = h.contract; view = c.view; grant = g }

-- What the store has of a commit of an attempt that `step` admitted: the attempt's row, whose one
-- packet is the one that `step` wrote, and a valid proposal.
pub record IsRecorded (h : Host) (attempts : List AttemptRow) (c : CachedSubject) (g : Grant)
    (occasion : Option Text) (b : CommitBody) : Type 0 where
  pub row : AttemptRow
  pub found : find (λ a. text_eq a.id b.attempt) attempts ≡ some row
  pub sent : find_packet none row.body.inputs ≡ ok (some (content_of h c.view g))
  pub admitted : admitted_occasion row.body ≡ ok occasion
  pub later : (b.tick == 0) ≡ false
  pub valid : validate b.proposal ≡ ok tt

module _ (h : Host) (subject : Text) (attempts : List AttemptRow) where
  replay_packet-apply :
      (c : CachedSubject) (g : Grant) (occasion : Option Text) (a : Store.AttemptBody) (id : Text)
      (p : Proposal)
      → view_of h.documents c.state subject c.head ≡ ok c.view
      → grant_valid h.documents h.codec g c.view occasion ≡ ok tt
      → grant_unused_ids c.state g.create ≡ ok tt
      → admitted_occasion a ≡ ok occasion
      → length h.contract ≤ 2048
      → replay_packet h.documents h.codec subject a id p
          (packet_for h c g)
          (record { state = c.state; head = c.head; view = some c.view })
        ≡ apply h.documents c.state p g id
  unfolding replay_packet
  replay_packet-apply c g occasion a id p viewed valid unused admitted short =
      rw
        (
          viewed,
          admitted,
          valid,
          unused,
          text_eq_refl producer,
          view_eq_refl c.view,
          le→leb (length h.contract) 2048 short,
        )
        refl

  pub replay_commit-apply :
      (rows : List CommitRow) (c : CachedSubject) (g : Grant) (occasion : Option Text)
      (grant : Option Grant) (b : CommitBody) (id : Text) (t : ℕ) (state : State) (view : View)
      → IsReplayed h.documents h.codec subject attempts rows c
      → choose_grant h c occasion grant ≡ ok g
      → IsRecorded h attempts c g occasion b
      → h.documents.read_packet (content_of h c.view g) ≡ some (packet_for h c g)
      → length h.contract ≤ 2048
      → apply h.documents c.state b.proposal g id ≡ ok state
      → view_of h.documents state subject id ≡ ok view
      → IsReplayed h.documents h.codec subject attempts
          (rows ++ record { id = id; subject = subject; tick = t; body = Body.commit b } ∷ [])
          (record { head = id; state = state; view = view })
  unfolding replay_commits replay_commit replay_body replay_transition replay_content
  replay_commit-apply rows c g occasion grant b id t state view replayed chosen made read short
        applied viewed =
      let (valid, unused) = choose_grant-valid h c occasion grant g chosen in
      let before = IsReplayed-view h.documents h.codec subject attempts rows c replayed in
      replay_commits-append h.documents h.codec subject attempts rows _ nothing_replayed
      ∙ rw
          (
            replayed,
            made.later,
            made.valid,
            made.found,
            made.sent,
            read,
            replay_packet-apply c g occasion made.row.body id b.proposal before valid unused
                made.admitted short,
            applied,
            viewed,
          )
          refl
