-- ===== src/Routing.antt =====
-- The registry of executors and the choice of a route: `Registry` of src/routing.cpp and the test by
-- which `RoutedRuntime::step` passes over an executor. What a factory returns and the random session
-- id are arguments.
pub mod Sessions
pub mod Outcomes
pub mod Step
pub mod Reported
pub mod Turns
use cogg_cpp.Base.{
  ℕ, ◌+◌, Option, none, some, List, [], ◌∷◌, ◌++◌, map, ◌&&◌, ◌||◌, Bool, true, false, not, ltb,
  leb, ◌==◌, if◌then◌else◌, length, find, any, all, keep, Text, codes, text_eq, contains, Result,
  ok, require, require_row, ◌>>=◌, ◌>>◌,
}
use cogg_cpp.Proposal.{is_empty}
use cogg_cpp.Store.{Capabilities, Execution}
use cogg_cpp.Evidence.{validate_execution}

pub record Entry : Type 0 where
  pub id : Text
  pub caps : Capabilities
  pub enabled : Bool

pub record SessionRow : Type 0 where
  pub subject : Text
  pub id : Text
  pub execution : Execution

pub record Registry : Type 0 where
  pub entries : List Entry
  pub sessions : List SessionRow
  pub max_sessions : ℕ

unfoldable pub new_registry : ℕ → Result Registry
new_registry max_sessions = do
  require (ltb 0 max_sessions && leb max_sessions 1024) "invalid session limit"
  ok (record { entries = []; sessions = []; max_sessions = max_sessions })

-- a-z, A-Z, 0-9, '-', '_' and '.'
abbrev pub is_id_char : ℕ → Bool
is_id_char c =
    (leb 97 c && leb c 122)
    || (leb 65 c && leb c 90)
    || (leb 48 c && leb c 57)
    || (c == 45 || (c == 95 || c == 46))

abbrev pub has_id : Text → Entry → Bool
has_id id e = text_eq e.id id

unfoldable pub add_executor : Registry → Text → Capabilities → Bool → Result Registry
add_executor g id caps has_factory = do
  require (not (is_empty id) && (leb (length id) 64 && all is_id_char id)) "invalid executor id"
  require (has_factory && (ltb (length g.entries) 128 && not (any (has_id id) g.entries)))
      "duplicate or invalid executor"
  ok (record g { entries = record { id = id; caps = caps; enabled = true } ∷ g.entries })

unfoldable pub enable_entry : Text → Bool → List Entry → List Entry
enable_entry id b [] = []
enable_entry id b (e ∷ rest) =
    (if text_eq e.id id then record e { enabled = b } else e) ∷ enable_entry id b rest

unfoldable pub enable : Registry → Text → Bool → Result Registry
unfolding enable_entry
enable g id b = do
  require (any (has_id id) g.entries) "unknown executor"
  ok (record g { entries = enable_entry id b g.entries })

abbrev pub is_session : Text → Text → SessionRow → Bool
is_session subject id r = text_eq r.subject subject && text_eq r.id id

unfoldable pub evict : Registry → Text → Text → Registry
evict g subject id = record g { sessions = keep (λ r. not (is_session subject id r)) g.sessions }

unfoldable pub describe : Registry → List (Text × (Bool × Capabilities))
describe g = map (λ e. (e.id, (e.enabled, e.caps))) g.entries

-- `backend` is the name of the backend that the factory returns, or nothing when it returns none.
unfoldable pub session : Registry → Text → Text → Option Text → Text → Result (Registry × Execution)
session g subject id backend nonce = elim (find (is_session subject id) g.sessions) [
  | some r ↦ ok (g, r.execution)
  | none ↦ do
    require (ltb (length g.sessions) g.max_sessions) "executor session limit; evict an idle session"
    entry ← require_row (find (has_id id) g.entries) "map::at"
    name ← require_row backend "executor factory returned no backend"
    let execution : Execution = record {
      executor = id;
      backend = name;
      session = nonce;
      capabilities = entry.caps;
    }
    validate_execution (some execution)
    ok (
      record g {
        sessions = record { subject = subject; id = id; execution = execution } ∷ g.sessions;
      },
      execution,
    )
]

pub record Route : Type 0 where
  pub executors : List Text
  pub allow_remote : Bool
  pub require_exact_tokens : Bool
  pub require_checkpoint : Bool
  pub require_cancellation : Bool
  pub timeout_ms : ℕ
  pub attempt_timeout_ms : ℕ

-- `skip`: why an executor is passed over, or nothing.
unfoldable pub skip : Route → Entry → Option Text
skip r e =
    if not e.enabled
    then some (codes "disabled")
    else if e.caps.remote && not r.allow_remote
    then some (codes "remote_denied")
    else if (r.require_exact_tokens && not e.caps.exact_tokens)
        || ((r.require_checkpoint && not e.caps.checkpoint)
            || (r.require_cancellation && not e.caps.cancellation))
    then some (codes "capability_missing")
    else none
