-- ===== src/Tests/Replays.antt =====
-- The theorems on the replay and the cache of self state, applied to a history of two commits.
use cogg_cpp.Base.{
  ◌≡◌, inl, refl, none, some, [], ◌∷◌, false, Option, codes, ok, err, Result, text_eq, arith,
}
use cogg_cpp.Proposal.{Proposal, validate, is_digest, validate_note}
use cogg_cpp.Store.{
  Body, CommitRow, CommitBody, AttemptRow, observation, Snapshot, Pending, external, document,
  waiting_external,
}
use cogg_cpp.Runtime.{StepResult, empty_result}
use cogg_cpp.SelfState.{producer, profile_key, State, Grant, Packet, at_key, view_at}
use cogg_cpp.SelfState.Guard.{zeros, find_packet, admitted_occasion}
use cogg_cpp.SelfState.Kept.{AreKept}
use cogg_cpp.SelfState.Replay.{Replayed, nothing_replayed, replay_commits}
use cogg_cpp.SelfState.Settled.{replay_commits-AreSettled}
use cogg_cpp.SelfState.Load.{make_input, CachedSubject, Cache, Host, choose_grant}
use cogg_cpp.SelfState.Step.{advance}
use cogg_cpp.SelfState.Cached.{IsReplayed, IsRecorded}
use cogg_cpp.SelfState.Refined.{advance-IsReplayed}
use cogg_cpp.Tests.{sample_config, alice, sample_codec, no_capacity, admitted_found, reply}
use cogg_cpp.Tests.Executions.{silent, clocks_of}
use cogg_cpp.Tests.Selves.{plain_profile, documents_with, promise_key}

abbrev first_state : State
first_state = record { profile = plain_profile; profile_version = zeros; tasks = [] }

abbrev first_subject : CachedSubject
first_subject = record { head = zeros; state = first_state; view = view_at first_state alice zeros }

abbrev granting : Grant
granting = record {
  schema = codes "cogg:self-grant/v1";
  subject = alice;
  head = zeros;
  occasion = none;
  create = (promise_key, codes "call") ∷ [];
  settle = [];
  profile = none;
}

abbrev sent_packet : Packet
sent_packet = record {
  schema = producer;
  contract = codes "contract";
  view = first_subject.view;
  grant = granting;
}

abbrev host : Host
host = record {
  documents = documents_with (some sent_packet);
  codec = sample_codec;
  verify = λ s subject. ok tt;
  guard = none;
  capacity = no_capacity;
  backend = silent;
  backend_name = codes "model";
  policy = none;
  fits = none;
  execution = none;
  clocks = clocks_of false;
  nonce = codes "r";
  contract = codes "contract";
  write_packet = λ p. codes "packet";
  cancelled_first = false;
}

abbrev genesis_row : CommitRow
genesis_row = record {
  id = zeros;
  subject = alice;
  tick = 0;
  body = Body.genesis (record {
    subject = alice;
    created_at = 10;
    nonce = codes "n";
    limits = sample_config;
    memory = (profile_key, codes "profile") ∷ [];
  });
}

abbrev promising : Proposal
promising = record reply {
  memory = [];
  notes =
      record {
        key = promise_key;
        text = codes "call";
        note_type = codes "task";
        note_status = codes "open";
        sources = [];
        covers = [];
      }
      ∷ [];
}

abbrev due : Option Pending
due = some (record { id = none; kind = external; payload = document [] })

abbrev promising_attempt : AttemptRow
promising_attempt =
    let a = admitted_found.0 in
    record a {
      id = codes "a";
      body = record a.body {
        temporal = record a.body.temporal {
          admission = record a.body.temporal.admission { occasion = due };
        };
        inputs = make_input sample_codec observation producer (codes "packet") [] ∷ [];
      };
    }

abbrev promising_commit : CommitBody
promising_commit = record {
  subject = alice;
  tick = 1;
  parent = zeros;
  occasion = codes "o";
  attempt = codes "a";
  proposal = promising;
  memory = (profile_key, codes "profile") ∷ [];
  wake_at = none;
  committed_at = 40;
  wall_observed_at = 40;
  plan = record {
    decided_at = 40;
    requested_after_ms = none;
    requested_at = none;
    granted_at = none;
    granted_after_ms = none;
    reasons = [];
    budget = record {
      used = 0;
      limit = 2;
      period_ms = 1000;
      through_seq = 0;
      floor_at = 0;
      quota_at = 0;
      eligible_at = 0;
    };
  };
  inference_elapsed_ms = none;
  emission = none;
  disposition = none;
}

first-IsReplayed :
    IsReplayed host.documents sample_codec alice
      (promising_attempt ∷ [])
      (genesis_row ∷ [])
      first_subject
unfolding replay_commits text_eq
first-IsReplayed = refl

chosen : choose_grant host first_subject none (some granting) ≡ ok granting
unfolding choose_grant text_eq is_digest
chosen = refl

recorded : IsRecorded host (promising_attempt ∷ []) first_subject granting none promising_commit
unfolding find_packet text_eq validate admitted_occasion is_digest make_input validate_note
recorded = record {
  row = promising_attempt;
  found = refl;
  sent = refl;
  admitted = refl;
  later = refl;
  valid = refl;
}

abbrev second_head : Snapshot
second_head = record {
  subject = alice;
  tick = 1;
  head = codes "head";
  memory = (profile_key, codes "profile") ∷ [];
  wake_at = none;
  lifecycle = waiting_external;
}

abbrev committed_step : StepResult
committed_step = record (empty_result (codes "a")) {
  status = codes "committed";
  snapshot = some second_head;
}

unfoldable next_cache : Cache
unfolding advance
next_cache =
    elim (advance host.documents alice first_state granting (some promising) committed_step []) [
      | ok c ↦ c
      | err e ↦ []
    ]

advanced :
    advance host.documents alice first_state granting (some promising) committed_step []
    ≡ ok next_cache
unfolding next_cache text_eq
advanced = refl

advance-IsReplayed_example :
    (c' : CachedSubject) × (at_key alice next_cache ≡ some c')
    × IsReplayed host.documents sample_codec alice
        (promising_attempt ∷ [])
        (genesis_row
          ∷ record {
            id = codes "head";
            subject = alice;
            tick = 1;
            body = Body.commit promising_commit;
          }
          ∷ [])
        c'
advance-IsReplayed_example =
    advance-IsReplayed host alice (promising_attempt ∷ []) (genesis_row ∷ []) first_subject
      (some granting) granting none promising_commit (some promising) 1 committed_step second_head
      [] next_cache first-IsReplayed chosen recorded refl (omega arith) (inl (refl, refl)) refl
      advanced

abbrev second_row : CommitRow
second_row = record {
  id = codes "head";
  subject = alice;
  tick = 1;
  body = Body.commit promising_commit;
}

unfoldable both : Result Replayed
unfolding replay_commits
both =
    replay_commits host.documents sample_codec alice (promising_attempt ∷ [])
      (genesis_row ∷ second_row ∷ []) nothing_replayed

unfoldable last_replayed : Replayed
unfolding both
last_replayed = elim both [ ok r ↦ r | err e ↦ nothing_replayed ]

both_lem :
    replay_commits host.documents sample_codec alice
      (promising_attempt ∷ [])
      (genesis_row ∷ second_row ∷ [])
      nothing_replayed
    ≡ ok last_replayed
unfolding last_replayed text_eq validate is_digest validate_note make_input
both_lem = refl

replay_commits-AreSettled_example :
    (mid : Replayed) × (replay_commits host.documents sample_codec alice
        (promising_attempt ∷ [])
        (genesis_row ∷ [])
        nothing_replayed
      ≡ ok mid)
    × AreKept mid.state last_replayed.state
replay_commits-AreSettled_example =
    replay_commits-AreSettled host.documents sample_codec alice (promising_attempt ∷ [])
      (genesis_row ∷ []) (second_row ∷ []) nothing_replayed last_replayed both_lem
