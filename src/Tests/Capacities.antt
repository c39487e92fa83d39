-- ===== src/Tests/Capacities.antt =====
-- The theorem on what a commit leaves room for, applied to a memory with an open task.
use cogg_cpp.Base.{none, some, [], ◌∷◌, codes, Result, ok, err}
use cogg_cpp.Store.{State, AttemptRow, Capacity, Snapshot, sleeping}
use cogg_cpp.Store.Commit.{commit_locked}
use cogg_cpp.Retrieval.Capacity.{memory_capacity}
use cogg_cpp.Tests.{sample_codec, admitted_store, ready_attempt, reply, admitted_found}
use cogg_cpp.Tests.Retrievals.{deposits, search_all, sizes}

abbrev room : Capacity
room = record { max_items = 16; max_bytes = 8192 }

abbrev promising_row : AttemptRow
promising_row =
    let a = admitted_found.0 in
    record a {
      body = record a.body {
        context = some (record { strategy = codes "balanced"; items = []; capacity = some room });
      };
    }

abbrev full_store : State
full_store = record admitted_store { attempts = promising_row ∷ []; memory_db = deposits }

unfoldable kept_result : Result (State × Snapshot)
unfolding commit_locked
kept_result =
    commit_locked sample_codec none (memory_capacity search_all sizes) full_store ready_attempt
      reply 40 none none none

unfoldable kept_store : State
unfolding kept_result
kept_store = elim kept_result [ ok r ↦ r.0 | err e ↦ full_store ]

unfoldable kept_snapshot : Snapshot
unfolding kept_result
kept_snapshot = elim kept_result [
  | ok r ↦ r.1
  | err e ↦ record {
    subject = [];
    tick = 0;
    head = [];
    memory = [];
    wake_at = none;
    lifecycle = sleeping;
  }
]
