-- ===== src/Runs.antt =====
-- The histories of a store: the calls of the `Store` class of src/kernel.cpp, in any order and by
-- any host, as a step relation. A call that throws is rolled back and is no step.
pub mod Accounts
pub mod Kept
pub mod Admissions
pub mod Settlements
pub mod Quota
use cogg_cpp.Base.{ℕ, ◌≡◌, Option, none, some, List, Text, ℤ, Bool, Result, ok}
use cogg_cpp.Budget.{Limits}
use cogg_cpp.Proposal.{Proposal, Abstention}
use cogg_cpp.Store.{
  State, Codec, Memory, Input, Execution, Context, Emission, Snapshot, empty_store,
}
use cogg_cpp.Memory.{MemoryDb}
use cogg_cpp.Store.Inbox.{create, submit}
use cogg_cpp.Store.Admit.{Present, Attempt, admit}
use cogg_cpp.Store.Commit.{TransitionGuard, CapacityCheck, commit}
use cogg_cpp.Store.Settle.{mark_failed, FailureScope, abstain, fail}
use cogg_cpp.Evidence.{AdmissionContext}

pub data Step (codec : Codec) (s : State) : State → Type 0 where
  creates :
      {t : State} (subject : Text) (limits : Limits) (now : ℤ) (memory : Memory) (nonce : Text)
      → create codec s subject limits now memory nonce ≡ ok t
      → Step codec s t
  submits :
      {t : State} (subject key payload id : Text) (now : ℤ)
      → submit codec s subject key payload now ≡ ok (t, id)
      → Step codec s t
  admits :
      {t : State} (size : List Input → ℕ) (subject backend : Text) (now : ℤ)
      (policy : Option (Present → Result Context)) (fits : Option (Present → Bool))
      (execution : Option Execution) (context : Option AdmissionContext) (nonce : Text)
      (a : Option Attempt)
      → admit codec size s subject backend now policy fits execution context nonce ≡ ok (t, a)
      → Step codec s t
  commits :
      {t : State} (guard : Option TransitionGuard) (capacity : CapacityCheck) (attempt : Text)
      (proposal : Proposal) (now : ℤ) (elapsed : Option ℤ) (emission : Option Emission)
      (snap : Snapshot)
      → commit codec guard capacity s attempt proposal now elapsed emission ≡ ok (t, snap)
      → Step codec s t
  abstains :
      {t : State} (attempt : Text) (outcome : Abstention) (provider id : Text)
      → abstain codec s attempt outcome provider ≡ ok (t, id)
      → Step codec s t
  fails :
      {t : State} (capacity : CapacityCheck) (attempt reason : Text) (scope : FailureScope)
      (now : ℤ) (snap : Option Snapshot)
      → fail codec capacity s attempt reason scope now ≡ ok (t, snap)
      → Step codec s t
  -- The other `fail`, of an attempt and a reason, on any attempt.
  marks : {t : State} (attempt reason : Text) → t ≡ mark_failed attempt reason s → Step codec s t
  -- `rebuild_memory` writes the tables of typed memory and no other; what it fills them with is left
  -- open.
  rebuilds : {t : State} (db : MemoryDb) → t ≡ record s { memory_db = db } → Step codec s t

-- The states that a new database can come to.
pub data Reachable (codec : Codec) : State → Type 0 where
  start : Reachable codec empty_store
  next : {s t : State} → Reachable codec s → Step codec s t → Reachable codec t
