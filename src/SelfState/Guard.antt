-- ===== src/SelfState/Guard.antt =====
-- `install_self_guard` and `self_grant` of src/self_state.cpp: the guard that stands in a commit.
use cogg_cpp.Base.{
  List, [], ◌∷◌, Bool, true, false, not, if◌then◌else◌, any, pos, Option, none, some, Text, codes,
  text_eq, Result, ok, require, require_row, ◌>>=◌, ◌>>◌,
}
use cogg_cpp.Proposal.{Proposal}
use cogg_cpp.Store.{Codec, AttemptBody, Input, InputKind, observation, inference}
use cogg_cpp.Store.Commit.{TransitionGuard, is_null}
use cogg_cpp.SelfState.{
  Profile, data_valid, producer, profile_key, Task, State, View, Settlement, Grant, Packet,
  Documents, has_key, view_of, grant_valid,
}
use cogg_cpp.SelfState.Apply.{protected_write, set_task, apply}

abbrev is_observation : InputKind → Bool
is_observation observation = true
is_observation inference = false

-- The content of a packet; null stands for no packet.
abbrev packet_of : Text → Option Text
packet_of content = if text_eq content (codes "null") then none else some content

-- The round of the loop over the inputs.
unfoldable pub next_packet : Option Text → Input → Result (Option Text)
next_packet packet input =
    if text_eq input.body.producer producer
    then (do
      require (is_null packet) "duplicate self input"
      require (is_observation input.body.kind) "invalid self input kind"
      ok (packet_of input.body.content))
    else ok packet

unfoldable pub find_packet : Option Text → List Input → Result (Option Text)
unfolding next_packet
find_packet packet [] = ok packet
find_packet packet (input ∷ rest) = do found ← next_packet packet input; find_packet found rest

-- admission.at("temporal").at("admission").at("occasion").at("id")
unfoldable pub admitted_occasion : AttemptBody → Result (Option Text)
admitted_occasion a = do o ← require_row a.temporal.admission.occasion "null occasion"; ok o.id

-- std::string(64, '0')
abbrev pub zeros : Text
zeros = codes "0000000000000000000000000000000000000000000000000000000000000000"

-- state.tasks of the guard: the open commitments of the view.
unfoldable pub tasks_of : List (Text × Task) → List (Text × Task) → List (Text × Task)
unfolding set_task
tasks_of tasks [] = tasks
tasks_of tasks ((key, t) ∷ rest) = tasks_of (set_task key t tasks) rest

abbrev pub guard_state : View → State
guard_state view = record {
  profile = view.profile;
  profile_version = view.profile_version;
  tasks = tasks_of [] view.open_tasks;
}

-- The guard from the packet on.
unfoldable pub guard_packet :
    Documents → Codec → Text → AttemptBody → Proposal → Packet → Result (Unit {0})
unfolding admitted_occasion grant_valid apply view_of
guard_packet d codec subject a p packet = do
  occasion ← admitted_occasion a
  grant_valid d codec packet.grant packet.view occasion
  next ← apply d (guard_state packet.view) p packet.grant zeros
  view ← view_of d next subject zeros
  ok tt

unfoldable pub guard_content :
    Documents → Codec → Text → AttemptBody → Proposal → Option Text → Result (Unit {0})
unfolding guard_packet protected_write
guard_content d codec subject a p none =
    require (not (protected_write p)) "unguarded self mutation rejected by transition guard"
guard_content d codec subject a p (some content) = do
  packet ← require_row (d.read_packet content) "invalid self object fields"
  guard_packet d codec subject a p packet

-- The function that install_self_guard sets as the transition guard.
unfoldable pub self_guard : Documents → Codec → TransitionGuard
unfolding find_packet guard_content protected_write
self_guard d codec subject snap a p =
    if any (has_key profile_key) snap.memory
    then (do packet ← find_packet none a.inputs; guard_content d codec subject a p packet)
    else require (not (protected_write p)) "self.* keys require a self-state subject"

-- self_grant
unfoldable pub self_grant :
    Documents
    → Codec
    → View
    → Option Text
    → List (Text × Text)
    → List (Text × Settlement)
    → Option Text
    → Result Grant
unfolding grant_valid
self_grant d codec view occasion create settle profile = do
  let grant : Grant = record {
    schema = codes "cogg:self-grant/v1";
    subject = view.subject;
    head = view.head;
    occasion = occasion;
    create = create;
    settle = settle;
    profile = profile;
  }
  grant_valid d codec grant view occasion
  ok grant

-- self_profile
unfoldable pub self_profile : Documents → Text → Result Profile
unfolding data_valid
self_profile d app_data = do
  data_valid d app_data
  ok (record { schema = producer; revision = pos 0; app_data = app_data })
