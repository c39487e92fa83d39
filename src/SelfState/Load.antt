-- ===== src/SelfState/Load.antt =====
-- What `SelfRuntime::step` of src/self_state.cpp reads and checks before the attempt, its cache among
-- it, and `make_input` of src/outcome.cpp.
use cogg_cpp.Base.{
  List, [], ◌∷◌, ◌++◌, ◌&&◌, Bool, false, not, ltb, leb, if◌then◌else◌, any, keep, Option, none,
  some, Text, text_eq, ℤ, pos, negsuc, Result, ok, require, require_row, ◌>>=◌, ◌>>◌,
}
use cogg_cpp.Proposal.{Abstention}
use cogg_cpp.Evidence.{AdmissionContext, validate_inputs, validate_execution}
use cogg_cpp.Store
use cogg_cpp.Store.{
  Codec, Body, Input, InputKind, InputBody, observation, Execution, Snapshot, Context, Decision,
  snapshot,
}
use cogg_cpp.Store.Admit.{Present}
use cogg_cpp.Store.Commit.{TransitionGuard, CapacityCheck}
use cogg_cpp.Store.Head.{verify_head}
use cogg_cpp.Runtime.{Backend, Clocks}
use cogg_cpp.SelfState.{
  producer, State, View, Grant, Packet, Documents, grant_valid, grant_unused_ids,
}
use cogg_cpp.SelfState.Guard.{self_grant}
use cogg_cpp.SelfState.Replay.{replay}

unfoldable pub make_input : Codec → InputKind → Text → Text → List Text → Input
make_input codec kind producer content sources =
    let body : InputBody = record {
      kind = kind;
      producer = producer;
      content = content;
      sources = sources;
    } in
    record { id = codec.hash (Body.input body); body = body }

pub record CachedSubject : Type 0 where
  pub head : Text
  pub state : State
  pub view : View

abbrev pub Cache : Type 0
Cache = List (Text × CachedSubject)

abbrev pub erase : Text → Cache → Cache
erase subject cache = keep (λ kv. not (text_eq kv.0 subject)) cache

-- cache_[subject] = c
abbrev pub put : Text → CachedSubject → Cache → Cache
put subject c cache = (subject, c) ∷ erase subject cache

-- The store, the backend and the environment of one call, with the prompt of the policy and the dump
-- of a packet.
pub record Host : Type 0 where
  pub documents : Documents
  pub codec : Codec
  pub verify : Store.State → Text → Result (Unit {0})
  pub guard : Option TransitionGuard
  pub capacity : CapacityCheck
  pub backend : Backend
  pub backend_name : Text
  pub policy : Option (Present → Result Context)
  pub fits : Option (Present → Bool)
  pub execution : Option Execution
  pub clocks : Clocks
  pub nonce : Text
  pub contract : Text
  pub write_packet : Packet → Text
  pub cancelled_first : Bool

pub record SelfResult : Type 0 where
  pub status : Text
  pub attempt : Text
  pub abstained : Option Abstention
  pub snapshot : Option Snapshot
  pub maintenance_error : Text
  pub schedule : Option Decision

abbrev pub result_of : Text → SelfResult
result_of status = record {
  status = status;
  attempt = [];
  abstained = none;
  snapshot = none;
  maintenance_error = [];
  schedule = none;
}

abbrev runs_backend : Option Execution → Text → Bool
runs_backend none name = false
runs_backend (some e) name = text_eq e.backend name

-- The checks before anything is read.
unfoldable pub check_step : Host → List Input → ℤ → Result (Unit {0})
unfolding validate_execution validate_inputs
check_step h inputs (negsuc t) = require false "invalid self attempt timeout"
check_step h inputs (pos t) = do
  require (ltb 0 t && leb t 3600000) "invalid self attempt timeout"
  validate_execution h.execution
  require (runs_backend h.execution h.backend_name) "self execution backend mismatch"
  validate_inputs h.codec h.documents.inputs_size inputs
  require (not (any (λ i. text_eq i.body.producer producer) inputs)) "self input is host-generated"

-- From a replay, when the cache has nothing at this head.
unfoldable pub load_history : Host → Store.State → Text → Result CachedSubject
unfolding replay
load_history h s subject = do
  r ← replay h.documents h.codec h.verify s subject
  view ← require_row r.view "null view"
  ok (record { head = view.head; state = r.state; view = view })

unfoldable pub load : Host → Store.State → Text → Option CachedSubject → Result CachedSubject
unfolding load_history
load h s subject none = do snap ← snapshot s subject; load_history h s subject
load h s subject (some c) = do
  snap ← snapshot s subject
  if text_eq c.head snap.head
      then (do verify_head h.codec s subject; ok c)
      else load_history h s subject

-- The grant of the caller, or the empty one, once it has been checked.
unfoldable pub choose_grant : Host → CachedSubject → Option Text → Option Grant → Result Grant
unfolding self_grant grant_valid grant_unused_ids
choose_grant h c occasion grant = do
  g ← elim grant [
    | none ↦ self_grant h.documents h.codec c.view occasion [] [] none
    | some g ↦ ok g
  ]
  grant_valid h.documents h.codec g c.view occasion
  grant_unused_ids c.state g.create
  ok g

-- content_of(view, g)
abbrev pub content_of : Host → View → Grant → Text
content_of h view g =
    h.write_packet (record { schema = producer; contract = h.contract; view = view; grant = g })

abbrev pub packet_context :
    Host → CachedSubject → Option Text → Grant → List Input → AdmissionContext
packet_context h c occasion g inputs = record {
  head = c.view.head;
  occasion = occasion;
  inputs = inputs ++ make_input h.codec observation producer (content_of h c.view g) [] ∷ [];
}
