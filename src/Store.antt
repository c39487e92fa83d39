-- ===== src/Store.antt =====
-- The durable state of the kernel: the tables that the constructor of `Store` in src/kernel.cpp
-- creates, as lists of rows, and the JSON bodies that it hashes and stores, as records. A statement
-- of SQL becomes a function on these lists; a transaction becomes a function from the state to a
-- `Result` of the next state, so that a rollback is an error that leaves the state.
pub mod Rows
pub mod Schedule
pub mod Inbox
pub mod Admit
pub mod Commit
pub mod Settle
pub mod Head
pub mod Reports
use cogg_cpp.Base.{
  ℕ, suc, ◌+◌, Option, none, some, List, [], ◌∷◌, ◌&&◌, ◌||◌, Bool, true, false, not, ◌==◌,
  if◌then◌else◌, length, find, Text, text_eq, text_lt, ℤ, Result, ok, require_row, ◌>>=◌,
}
use cogg_cpp.Budget.{Config, Budget, Admission}
use cogg_cpp.Proposal.{Proposal, MemoryWrite, Abstention}
use cogg_cpp.Wake.{WakePlan}
use cogg_cpp.Memory.{MemoryDb, ViewItem, NoteDigest}

-- The JSON object `memory`: its members in the order of their keys, as nlohmann::json keeps them.
abbrev pub Memory : Type 0
Memory = List (Text × Text)

-- memory[w.key] = w.value
unfoldable pub assign : Text → Text → Memory → Memory
assign k v [] = (k, v) ∷ []
assign k v ((j, w) ∷ m) =
    if text_eq k j
    then (k, v) ∷ m
    else if text_lt k j
    then (k, v) ∷ (j, w) ∷ m
    else (j, w) ∷ assign k v m

-- for (const auto& w : proposal.memory) memory[w.key] = w.value
unfoldable pub apply_writes : List MemoryWrite → Memory → Memory
unfolding assign
apply_writes [] m = m
apply_writes (w ∷ rest) m = apply_writes rest (assign w.key w.value m)

pub data OccasionKind : Type 0 where
  created external scheduled : OccasionKind

abbrev pub kind_eq : OccasionKind → OccasionKind → Bool
kind_eq created created = true
kind_eq external external = true
kind_eq scheduled scheduled = true
kind_eq _ _ = false

-- {"due_at": t}, which only a wake carries, or any other JSON document by its dump.
pub data Payload : Type 0 where
  due_at : ℕ → Payload
  document : Text → Payload

-- The equality of JSON values, on their dumps: of one dump they are equal, and `same` tells which values
-- of two dumps are, as 1 and 1.0 are.
unfoldable pub payload_eq : (Text → Text → Bool) → Payload → Payload → Bool
payload_eq same (due_at a) (due_at b) = a == b
payload_eq same (document a) (document b) = text_eq a b || same a b
payload_eq same _ _ = false

pub record EventBody : Type 0 where
  pub subject : Text
  pub key : Text
  pub kind : OccasionKind
  pub payload : Payload
  pub received_at : ℕ
  pub parent : Text

pub record GenesisBody : Type 0 where
  pub subject : Text
  pub created_at : ℕ
  pub nonce : Text
  pub limits : Config
  pub memory : Memory

pub data ScheduleStatus : Type 0 where
  sleeping waiting_external budget_exhausted minimum_interval ready : ScheduleStatus

-- The occasion of a schedule; its id is null for a wake that has not been enqueued yet.
pub record Pending : Type 0 where
  pub id : Option Text
  pub kind : OccasionKind
  pub payload : Payload

pub record Decision : Type 0 where
  pub status : ScheduleStatus
  pub eligible_at : Option ℕ
  pub occasion : Option Pending
  pub wall_observed_at : ℕ
  pub accounting_at : ℕ
  pub wall_rollback_ms : ℕ
  pub budget : Budget
  pub head : Text
  pub tick : ℕ
  pub wake_at : Option ℕ

pub record Temporal : Type 0 where
  pub clock : Text
  pub coordinate : ℕ
  pub admission : Decision
  pub previous_wake : Option WakePlan
  pub wake_lateness_ms : Option ℤ

pub record Capabilities : Type 0 where
  pub remote : Bool
  pub exact_tokens : Bool
  pub checkpoint : Bool
  pub cancellation : Bool

pub record Execution : Type 0 where
  pub executor : Text
  pub backend : Text
  pub session : Text
  pub capabilities : Capabilities

pub data InputKind : Type 0 where
  observation inference : InputKind

pub record InputBody : Type 0 where
  pub kind : InputKind
  pub producer : Text
  pub content : Text
  pub sources : List Text

pub record Input : Type 0 where
  pub id : Text
  pub body : InputBody

-- The projection of typed memory that an admission freezes, and its capacity contract.
pub record Capacity : Type 0 where
  pub max_items : ℕ
  pub max_bytes : ℕ

pub record Context : Type 0 where
  pub strategy : Text
  pub items : List ViewItem
  pub capacity : Option Capacity

pub record AttemptBody : Type 0 where
  pub nonce : Text
  pub subject : Text
  pub parent : Text
  pub tick : ℕ
  pub occasion : Text
  pub backend : Text
  pub admitted_at : ℕ
  pub prior_unsettled : Bool
  pub wall_observed_at : ℕ
  pub temporal : Temporal
  pub execution : Option Execution
  pub inputs : List Input
  pub context : Option Context

pub record Disposition : Type 0 where
  pub limit : ℕ
  pub failures : List Text

pub record Emission : Type 0 where
  pub attempt : Text
  pub subject : Text
  pub parent : Text
  pub occasion : Text
  pub execution : Execution
  pub proposal : Proposal
  pub provider : Text

pub record CommitBody : Type 0 where
  pub subject : Text
  pub tick : ℕ
  pub parent : Text
  pub occasion : Text
  pub attempt : Text
  pub proposal : Proposal
  pub memory : Memory
  pub wake_at : Option ℕ
  pub committed_at : ℕ
  pub wall_observed_at : ℕ
  pub plan : WakePlan
  pub inference_elapsed_ms : Option ℕ
  pub emission : Option Emission
  pub disposition : Option Disposition

pub record AbstentionBody : Type 0 where
  pub attempt : Text
  pub subject : Text
  pub parent : Text
  pub occasion : Text
  pub execution : Option Execution
  pub outcome : Abstention
  pub provider : Text

-- What `hash` and `execution_hash` are applied to.
pub data Body : Type 0 where
  genesis : GenesisBody → Body
  event : EventBody → Body
  attempt : AttemptBody → Body
  commit : CommitBody → Body
  abstention : AbstentionBody → Body
  input : InputBody → Body

-- The libraries that the code calls: SHA-256 of a canonical dump, in hexadecimal, the digest of a
-- note, the size of the dump of a memory object, and whether two JSON values are equal though their
-- dumps differ.
pub record Codec : Type 0 where
  pub hash : Body → Text
  pub note_id : NoteDigest
  pub state_size : Memory → ℕ
  pub json_eq : Text → Text → Bool

pub data AttemptStatus : Type 0 where
  reserved committed failed superseded abstained : AttemptStatus

abbrev pub is_reserved : AttemptStatus → Bool
is_reserved reserved = true
is_reserved _ = false

abbrev pub is_abstained : AttemptStatus → Bool
is_abstained abstained = true
is_abstained _ = false

abbrev pub is_committed : AttemptStatus → Bool
is_committed committed = true
is_committed _ = false

pub record SubjectRow : Type 0 where
  pub id : Text
  pub tick : ℕ
  pub head : Text
  pub memory : Memory
  pub wake : Option ℕ
  pub limits : Config
  pub accounting_wall : ℕ

pub record OccasionRow : Type 0 where
  pub id : Text
  pub subject : Text
  pub key : Text
  pub kind : OccasionKind
  pub parent : Text
  pub body : EventBody
  pub consumed : Option Text

pub record AttemptRow : Type 0 where
  pub seq : ℕ
  pub id : Text
  pub subject : Text
  pub parent : Text
  pub occasion : Text
  pub admitted_at : ℕ
  pub body : AttemptBody
  pub status : AttemptStatus
  pub error : Text

pub record CommitRow : Type 0 where
  pub id : Text
  pub subject : Text
  pub tick : ℕ
  pub body : Body

pub record AbstentionRow : Type 0 where
  pub id : Text
  pub attempt : Text
  pub body : AbstentionBody

pub record FailureRow : Type 0 where
  pub attempt : Text
  pub occasion : Text
  pub reason : Text

-- Occasions in the order of their `seq`; attempts and commits newest first.
pub record State : Type 0 where
  pub subjects : List SubjectRow
  pub occasions : List OccasionRow
  pub attempts : List AttemptRow
  pub commits : List CommitRow
  pub abstentions : List AbstentionRow
  pub failures : List FailureRow
  pub memory_db : MemoryDb

abbrev pub empty_store : State
empty_store = record {
  subjects = [];
  occasions = [];
  attempts = [];
  commits = [];
  abstentions = [];
  failures = [];
  memory_db = record { entries = []; links = [] };
}

pub record Snapshot : Type 0 where
  pub subject : Text
  pub tick : ℕ
  pub head : Text
  pub memory : Memory
  pub wake_at : Option ℕ
  pub lifecycle : ScheduleStatus

abbrev pub lifecycle_of : Option ℕ → ScheduleStatus
lifecycle_of none = waiting_external
lifecycle_of (some t) = sleeping

-- WHERE id=?
unfoldable pub subject_row : State → Text → Option SubjectRow
subject_row s subject = find (λ r. text_eq r.id subject) s.subjects

unfoldable pub attempt_row : State → Text → Option AttemptRow
attempt_row s id = find (λ r. text_eq r.id id) s.attempts

unfoldable pub occasion_row : State → Text → Option OccasionRow
occasion_row s id = find (λ r. text_eq r.id id) s.occasions

unfoldable pub commit_row : State → Text → Option CommitRow
commit_row s id = find (λ r. text_eq r.id id) s.commits

abbrev pub snapshot_of : SubjectRow → Snapshot
snapshot_of r = record {
  subject = r.id;
  tick = r.tick;
  head = r.head;
  memory = r.memory;
  wake_at = r.wake;
  lifecycle = lifecycle_of r.wake;
}

unfoldable pub snapshot : State → Text → Result Snapshot
unfolding subject_row
snapshot s subject = do
  r ← require_row (subject_row s subject) "subject not found"
  ok (snapshot_of r)

-- The rows of `attempts` that `budget` reads.
unfoldable pub admissions : Text → List AttemptRow → List Admission
admissions subject [] = []
admissions subject (a ∷ rest) =
    if text_eq a.subject subject
    then record { seq = a.seq; at = a.admitted_at } ∷ admissions subject rest
    else admissions subject rest

-- UPDATE subjects SET ... WHERE id=?
unfoldable pub update_subject : Text → (SubjectRow → SubjectRow) → List SubjectRow → List SubjectRow
update_subject subject f [] = []
update_subject subject f (r ∷ rest) =
    (if text_eq r.id subject then f r else r) ∷ update_subject subject f rest

-- UPDATE attempts SET ... WHERE id=?
unfoldable pub update_attempt : Text → (AttemptRow → AttemptRow) → List AttemptRow → List AttemptRow
update_attempt id f [] = []
update_attempt id f (r ∷ rest) = (if text_eq r.id id then f r else r) ∷ update_attempt id f rest
