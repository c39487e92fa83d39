-- ===== src/SelfState/Replay.antt =====
-- `replay` and `inspect_self` of src/self_state.cpp: the self state that a history has. The check of
-- the whole history, `Store::verify`, is an argument.
use cogg_cpp.Base.{
  ◌==◌, List, [], ◌∷◌, ◌&&◌, ◌||◌, Bool, not, leb, if◌then◌else◌, length, find, Option, none, some,
  Text, codes, text_eq, pos, Result, ok, err, error, require, require_row, no_conflict, ◌>>=◌, ◌>>◌,
}
use cogg_cpp.Proposal.{Proposal, validate}
use cogg_cpp.Evidence.{list_eq}
use cogg_cpp.Store
use cogg_cpp.Store.{Codec, Body, Memory, AttemptRow, CommitRow, CommitBody, Snapshot, snapshot}
use cogg_cpp.Store.Reports.{timeline}
use cogg_cpp.SelfState.{
  producer, profile_key, is_reserved_key, Profile, Task, State, View, Packet, Documents,
  profile_valid, at_key, view_of, grant_valid, grant_unused_ids,
}
use cogg_cpp.SelfState.Apply.{protected_write, revision_eq, apply}
use cogg_cpp.SelfState.Guard.{find_packet, admitted_occasion}

-- operator== of the JSON library on two views.
abbrev pub profile_eq : Profile → Profile → Bool
profile_eq a b =
    text_eq a.schema b.schema
    && (revision_eq a.revision b.revision && text_eq a.app_data b.app_data)

abbrev pub task_eq : (Text × Task) → (Text × Task) → Bool
task_eq a b =
    text_eq a.0 b.0
    && (text_eq a.1.text b.1.text
        && (text_eq a.1.task_status b.1.task_status && text_eq a.1.version b.1.version))

unfoldable pub view_eq : View → View → Bool
view_eq a b =
    text_eq a.subject b.subject
    && (text_eq a.head b.head
        && (profile_eq a.profile b.profile
            && (text_eq a.profile_version b.profile_version
                && (list_eq task_eq a.open_tasks b.open_tasks
                    && a.settled_count == b.settled_count))))

-- State state; its profile is null until the commit at tick zero has been read.
abbrev pub null_state : State
null_state = record {
  profile = record { schema = []; revision = pos 0; app_data = codes "null" };
  profile_version = [];
  tasks = [];
}

-- What the loop over the commits keeps.
pub record Replayed : Type 0 where
  pub state : State
  pub head : Text
  pub view : Option View

abbrev pub nothing_replayed : Replayed
nothing_replayed = record { state = null_state; head = []; view = none }

unfoldable pub check_genesis_keys : Memory → Result (Unit {0})
unfolding is_reserved_key
check_genesis_keys [] = ok tt
check_genesis_keys ((key, value) ∷ rest) = do
  require (not (is_reserved_key key) || text_eq key profile_key) "reserved genesis self key"
  check_genesis_keys rest

-- The branch of tick zero.
unfoldable pub replay_genesis : Documents → Text → Memory → State → Result State
unfolding check_genesis_keys profile_valid
replay_genesis d id memory state = do
  check_genesis_keys memory
  value ← require_row (at_key profile_key memory) "self profile must be initialized at genesis"
  p ← require_row (d.read_profile value) "invalid self object fields"
  profile_valid d p
  require (revision_eq p.revision (pos 0)) "genesis self revision must be zero"
  ok (record state { profile = p; profile_version = id })

-- What the packet of an attempt's inputs let the proposal do.
unfoldable pub replay_packet :
    Documents
    → Codec
    → Text
    → Store.AttemptBody
    → Text
    → Proposal
    → Packet
    → Replayed
    → Result State
unfolding view_of admitted_occasion grant_valid grant_unused_ids view_eq apply
replay_packet d codec subject a id p packet r = do
  before ← view_of d r.state subject r.head
  occasion ← admitted_occasion a
  grant_valid d codec packet.grant before occasion
  grant_unused_ids r.state packet.grant.create
  require
      (text_eq packet.schema producer
        && (view_eq packet.view before && leb (length packet.contract) 2048))
      "self admission view/contract mismatch"
  apply d r.state p packet.grant id

unfoldable pub replay_content :
    Documents
    → Codec
    → Text
    → Store.AttemptBody
    → Text
    → Proposal
    → Option Text
    → Replayed
    → Result State
unfolding replay_packet protected_write
replay_content d codec subject a id p none r = do
  require (not (protected_write p)) "unguarded self mutation in history"
  ok r.state
replay_content d codec subject a id p (some content) r = do
  packet ← require_row (d.read_packet content) "invalid self object fields"
  replay_packet d codec subject a id p packet r

-- The branch of the later ticks.
unfoldable pub replay_transition :
    Documents → Codec → Text → List AttemptRow → Text → CommitBody → Replayed → Result State
unfolding validate find_packet replay_content
replay_transition d codec subject attempts id b r = do
  validate b.proposal
  row ← require_row (find (λ a. text_eq a.id b.attempt) attempts) "attempt missing"
  content ← find_packet none row.body.inputs
  replay_content d codec subject row.body id b.proposal content r

unfoldable pub replay_body :
    Documents → Codec → Text → List AttemptRow → Text → Body → Replayed → Result State
unfolding replay_genesis replay_transition
replay_body d codec subject attempts id (Body.genesis g) r = replay_genesis d id g.memory r.state
replay_body d codec subject attempts id (Body.commit b) r =
    if b.tick == 0
    then replay_genesis d id b.memory r.state
    else replay_transition d codec subject attempts id b r
replay_body d codec subject attempts id _ r = err (error "no tick")

-- One round of the loop.
unfoldable pub replay_commit :
    Documents → Codec → Text → List AttemptRow → CommitRow → Replayed → Result Replayed
unfolding replay_body view_of
replay_commit d codec subject attempts c r = do
  next ← replay_body d codec subject attempts c.id c.body r
  view ← view_of d next subject c.id
  ok (record { state = next; head = c.id; view = some view })

unfoldable pub replay_commits :
    Documents → Codec → Text → List AttemptRow → List CommitRow → Replayed → Result Replayed
unfolding replay_commit
replay_commits d codec subject attempts [] r = ok r
replay_commits d codec subject attempts (c ∷ rest) r = do
  next ← replay_commit d codec subject attempts c r
  replay_commits d codec subject attempts rest next

unfoldable pub replay :
    Documents
    → Codec
    → (Store.State → Text → Result (Unit {0}))
    → Store.State
    → Text
    → Result Replayed
unfolding timeline snapshot replay_commits
replay d codec verify s subject = do
  line ← timeline s subject
  verify s subject
  snap ← snapshot s subject
  no_conflict (text_eq snap.head line.state.head) "self history changed during verification"
  replay_commits d codec subject line.attempts line.commits nothing_replayed

unfoldable pub inspect_self :
    Documents
    → Codec
    → (Store.State → Text → Result (Unit {0}))
    → Store.State
    → Text
    → Result (Option View)
unfolding replay
inspect_self d codec verify s subject = do r ← replay d codec verify s subject; ok r.view
