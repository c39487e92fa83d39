-- ===== src/SelfState.antt =====
-- The host's policy on self state: src/self_state.cpp. A profile, a commitment, a view, a grant and a
-- packet are records; what turns a JSON document into one, with the tests of its members and of their
-- types, is the JSON library's and stands in `Documents`. Application data is the text of its dump.
pub mod Apply
pub mod Guard
pub mod Kept
pub mod Allowed
pub mod Granted
pub mod Replay
pub mod Settled
pub mod Load
pub mod Step
pub mod Cached
pub mod Refined
use cogg_cpp.Base.{
  ℕ, suc, ◌+◌, ◌-◌, ◌==◌, List, [], ◌∷◌, ◌&&◌, ◌||◌, Bool, true, false, not, ltb, leb,
  if◌then◌else◌, length, any, all, find, keep, drop, Option, none, some, Text, codes, text_eq,
  text_lt, has_nul, contains, ℤ, pos, negsuc, int64_max, Result, ok, err, error, require,
  require_row, ◌>>=◌, ◌>>◌,
}
use cogg_cpp.Proposal.{Proposal, MemoryWrite, MemoryNote, has_type, has_status, is_empty}
use cogg_cpp.Store.{Codec, Input, Memory}
use cogg_cpp.Evidence.{validate_admission_context}
use cogg_cpp.Retrieval.Project.{starts_with}

abbrev pub producer : Text
producer = codes "cogg:self/v1"

-- `prefix`
abbrev pub commitment_prefix : Text
commitment_prefix = codes "self.commitment."

abbrev pub profile_key : Text
profile_key = codes "self.profile"

unfoldable pub is_reserved_key : Text → Bool
unfolding starts_with
is_reserved_key key = starts_with (codes "self.") key

abbrev is_id_byte : ℕ → Bool
is_id_byte c =
    (leb 97 c && leb c 122)
    || ((leb 65 c && leb c 90) || ((leb 48 c && leb c 57) || (c == 95 || c == 45)))

-- commitment(key)
unfoldable pub is_commitment : Text → Bool
unfolding starts_with
is_commitment key =
    starts_with commitment_prefix key
    && (ltb (length commitment_prefix) (length key)
        && (leb (length key) 128 && all is_id_byte (drop (length commitment_prefix) key)))

pub record Profile : Type 0 where
  pub schema : Text
  pub revision : ℤ
  pub app_data : Text

-- A commitment: {"text", "status", "version"}.
pub record Task : Type 0 where
  pub text : Text
  pub task_status : Text
  pub version : Text

pub record State : Type 0 where
  pub profile : Profile
  pub profile_version : Text
  pub tasks : List (Text × Task)

pub record View : Type 0 where
  pub subject : Text
  pub head : Text
  pub profile : Profile
  pub profile_version : Text
  pub open_tasks : List (Text × Task)
  pub settled_count : ℕ

pub record Settlement : Type 0 where
  pub version : Text
  pub task_status : Text

pub record Grant : Type 0 where
  pub schema : Text
  pub subject : Text
  pub head : Text
  pub occasion : Option Text
  pub create : List (Text × Text)
  pub settle : List (Text × Settlement)
  pub profile : Option Text

-- The content of the packet that a host attaches to an admission.
pub record Packet : Type 0 where
  pub schema : Text
  pub contract : Text
  pub view : View
  pub grant : Grant

-- The JSON library: `fields` and the types of the members decide whether a document is a profile or a
-- packet; the sizes are those of dumps.
pub record Documents : Type 0 where
  pub read_profile : Text → Option Profile
  pub read_packet : Text → Option Packet
  pub is_object : Text → Bool
  pub view_size : View → ℕ
  pub grant_size : Grant → ℕ
  pub inputs_size : List Input → ℕ

unfoldable pub data_valid : Documents → Text → Result (Unit {0})
data_valid d app_data =
    require (d.is_object app_data && leb (length app_data) 4096)
      "self profile data must be an object of at most 4096 bytes"

abbrev revision_fits : ℤ → Bool
revision_fits (pos n) = ltb n int64_max
revision_fits (negsuc n) = false

unfoldable pub profile_valid : Documents → Profile → Result (Unit {0})
unfolding data_valid
profile_valid d p = do
  require (text_eq p.schema producer) "invalid self profile schema/revision"
  require (revision_fits p.revision) "self profile revision out of range"
  data_valid d p.app_data

abbrev pub is_open : (Text × Task) → Bool
is_open kt = text_eq kt.1.task_status (codes "open")

abbrev pub view_at : State → Text → Text → View
view_at state subject head = record {
  subject = subject;
  head = head;
  profile = state.profile;
  profile_version = state.profile_version;
  open_tasks = keep is_open state.tasks;
  settled_count = length state.tasks - length (keep is_open state.tasks);
}

unfoldable pub view_of : Documents → State → Text → Text → Result View
view_of d state subject head = do
  require (leb (length (keep is_open state.tasks)) 16) "too many open self commitments"
  require (leb (d.view_size (view_at state subject head)) 12288) "self view exceeds 12288 bytes"
  ok (view_at state subject head)

abbrev pub has_key {ℓ} : {A : Type ℓ} → Text → (Text × A) → Bool
has_key key kv = text_eq kv.0 key

-- find, and at(...) after contains(...), of an object or a map.
abbrev pub at_key {ℓ} : {A : Type ℓ} → Text → List (Text × A) → Option A
at_key key [] = none
at_key key ((k, v) ∷ rest) = if text_eq k key then some v else at_key key rest

abbrev pub optional_eq : Option Text → Option Text → Bool
optional_eq none none = true
optional_eq (some a) (some b) = text_eq a b
optional_eq _ _ = false

-- The loop over what a grant creates.
unfoldable pub check_creates : List (Text × Settlement) → List (Text × Text) → Result (Unit {0})
unfolding is_commitment
check_creates settle [] = ok tt
check_creates settle ((key, text) ∷ rest) = do
  require
      (is_commitment key
        && (not (is_empty text)
            && (leb (length text) 2048 && (not (has_nul text) && not (any (has_key key) settle)))))
      "invalid commitment create grant"
  check_creates settle rest

-- The loop over the open commitments of the view, for one settlement; whether one was found.
unfoldable pub check_open : Text → Settlement → List (Text × Task) → Result Bool
check_open key s [] = ok false
check_open key s ((k, t) ∷ rest) = do
  require (not (text_eq k key) || text_eq s.version t.version) "stale commitment version"
  more ← check_open key s rest
  ok (text_eq k key || more)

unfoldable pub check_settles : View → List (Text × Settlement) → Result (Unit {0})
unfolding is_commitment check_open
check_settles view [] = ok tt
check_settles view ((key, s) ∷ rest) = do
  require (is_commitment key) "invalid commitment key"
  require (text_eq s.task_status (codes "closed") || text_eq s.task_status (codes "retracted"))
      "invalid settlement status"
  found ← check_open key s view.open_tasks
  require found "settlement requires an open commitment"
  check_settles view rest

abbrev check_granted_data : Documents → Option Text → Result (Unit {0})
check_granted_data d none = ok tt
check_granted_data d (some app_data) = data_valid d app_data

unfoldable pub grant_valid : Documents → Codec → Grant → View → Option Text → Result (Unit {0})
unfolding check_creates check_settles data_valid validate_admission_context
grant_valid d codec g view occasion = do
  require
      (text_eq g.schema (codes "cogg:self-grant/v1")
        && (text_eq g.subject view.subject
            && (text_eq g.head view.head && optional_eq g.occasion occasion)))
      "stale or foreign self grant"
  validate_admission_context codec d.inputs_size
      (some (record { head = g.head; occasion = occasion; inputs = [] }))
  require (leb (length g.create + length g.settle) 8) "invalid self grant size"
  check_creates g.settle g.create
  check_settles view g.settle
  check_granted_data d g.profile
  require (leb (d.grant_size g) 16384) "self grant too large"

unfoldable pub grant_unused_ids : State → List (Text × Text) → Result (Unit {0})
grant_unused_ids state [] = ok tt
grant_unused_ids state ((key, text) ∷ rest) = do
  require (not (any (has_key key) state.tasks)) "commitment ID already used"
  grant_unused_ids state rest
