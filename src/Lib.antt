-- ===== src/Lib.antt =====
-- cogg.cpp: a verification library for the kernel of durable agents.
--
-- The program keeps subjects in a SQLite database. A subject has a chain of commits, an inbox of
-- occasions, and attempts: an attempt is admitted when an occasion waits and the budget of the
-- subject allows it, a model is asked outside the database, and the attempt is then committed,
-- abstained from or failed. Each call of the store is one write transaction, so the model has one
-- function per call, from the state to a result of the next state; a call that throws is rolled back
-- and is an error value. Histories are sequences of calls by any number of hosts (Runs).
--
-- Parts, with the code that they translate (paths from the repository's root):
--   Budget    src/kernel.cpp: limits_json, check_time, add, Store::Impl::budget; include/cogg/kernel.hpp;
--             History is BudgetHistory and the branch of budget that searches it
--   Wake      src/kernel.cpp: Store::Impl::wake_plan
--   Proposal  src/kernel.cpp: validate; src/memory.cpp: validate_memory_notes; src/outcome.cpp
--   Memory    src/memory.cpp: memory_apply, memory_transition's test of settled tasks
--   Store     src/kernel.cpp: the tables, Schedule (schedule, event, clock), Inbox (create, submit,
--             enqueue), Admit (admit), Commit (commit, commit_locked), Settle (abstain, fail), Head
--             (verify_head), Reports (duration, timeline, request_trace, open_tasks, commits_page)
--   Evidence  src/outcome.cpp: validate_inputs; src/routing.cpp: validate_execution, validate_emission
--   Retrieval  src/memory.cpp: policy_ok, Words (terms, expanded_terms), Lanes and Candidates
--             (memory_candidates), Project (project_memory), Capacity (memory_capacity)
--   SelfState  src/self_state.cpp: views and grants, Apply, Guard (install_self_guard), Replay, Load
--             and Step (SelfRuntime::step with its cache)
--   Runtime   src/kernel.cpp: execute_attempt; Execute is the settlement after the backend's reply;
--             Step is Runtime::step and step_result
--   Routing   src/routing.cpp: Registry; Outcomes and Step are RoutedRuntime::step
--   Checkpoint  src/checkpoint.cpp: the bytes of a file, read_checkpoint, write_checkpoint
--   Display   tools/tui/protocol.cpp: display_text, excerpt
--   Runs      the calls as a step relation, and what holds in every reachable state
--   Heads     the agreement of the writers with verify_head
--   Tests     a sample history, and the theorems applied to it
--
-- Representation. A text is the list of its bytes. A table is a list of rows; attempts and commits
-- are kept newest first, occasions in the order of their sequence numbers. Rows of attempts are never
-- deleted, so the next sequence number is their count plus one. A 64-bit integer that a host may set
-- freely is an integer and is checked as in the code; instants that passed check_time are natural
-- numbers, and `add` refuses a sum past the largest 64-bit integer. JSON objects of fixed shape are
-- records. A free JSON value is its canonical dump, so a number that no dump reads back to, as NaN, is
-- not in the model. SHA-256 over dumps, the digest of a note, the size of a dump and whether values of
-- two dumps are equal, as 1 and 1.0 are, are the fields of a parameter, Codec; nothing is assumed of
-- the hash, so a collision of ids is an error, as the unique columns make it. Random nonces are
-- arguments. No definition of the code runs on fuel: every loop of it is a recursion on a list or on a
-- count. The client that reads a history page by page has fuel, with the theorem of how much is enough.
-- What a backend does, and what the clocks and the cancellation say in one run, are arguments of
-- `execute_attempt`.
--
-- The tables of typed memory are read by list functions in place of the statements; the ranking of the
-- full-text index is an argument, and so are the sizes of dumps and the backend's test of fit. The JSON
-- documents of self state are records, and what reads and writes them is a parameter, Documents.
--
-- Not modelled: the forensic verify, a parameter where it is called, but for its loop that fills a
-- BudgetHistory; memory_verify and memory_rebuild; recall and memory_record; the parsers of JSON; the
-- file system below checkpoints; the HTTP, llama, perception and terminal adapters, which are input and
-- output; migrations of old databases; the fault hooks of commit.
pub mod Base
pub mod Budget
pub mod Proposal
pub mod Wake
pub mod Memory
pub mod Store
pub mod Evidence
pub mod Runs
pub mod Heads
pub mod Checkpoint
pub mod Retrieval
pub mod SelfState
pub mod Runtime
pub mod Routing
pub mod Display
pub mod Tests
