-- ===== src/Store/Inbox.antt =====
-- The inbox: `Store::Impl::enqueue`, `Store::submit` and `Store::create` of src/kernel.cpp.
pub mod Idempotent
use cogg_cpp.Base.{
  ℕ, Option, none, some, List, [], ◌∷◌, ◌++◌, ◌&&◌, Bool, true, not, leb, if◌then◌else◌, length,
  find, any, Text, codes, text_eq, ℤ, Result, ok, require, require_row, ◌>>=◌, ◌>>◌,
}
use cogg_cpp.Budget.{Limits, limits_json, check_time}
use cogg_cpp.Proposal.{max_payload, text_fits}
use cogg_cpp.Store.{
  State, Codec, Body, EventBody, GenesisBody, OccasionKind, created, external, kind_eq, Payload,
  document, payload_eq, Memory, Snapshot, SubjectRow, OccasionRow, snapshot,
}

-- WHERE subject=? AND key=?
abbrev pub is_keyed : Text → Text → OccasionRow → Bool
is_keyed subject key o = text_eq o.subject subject && text_eq o.key key

-- The rows of an INSERT into `occasions`, whose ids are unique.
unfoldable pub insert_occasion : OccasionRow → State → Result State
insert_occasion row s = do
  require (not (any (λ o. text_eq o.id row.id) s.occasions)) "UNIQUE constraint failed"
  ok (record s { occasions = s.occasions ++ row ∷ [] })

unfoldable pub enqueue :
    Codec → State → Snapshot → Text → OccasionKind → Payload → ℕ → Result (State × Text)
unfolding insert_occasion payload_eq
enqueue codec s snap key kind payload now = elim (find (is_keyed snap.subject key) s.occasions) [
  | some old ↦ do
    require (payload_eq codec.json_eq old.body.payload payload && kind_eq old.body.kind kind)
        "idempotency key reused with different content"
    ok (s, old.id)
  | none ↦
      let body : EventBody = record {
        subject = snap.subject;
        key = key;
        kind = kind;
        payload = payload;
        received_at = now;
        parent = snap.head;
      } in
      let id = codec.hash (Body.event body) in
      (do
        t ←
            insert_occasion
              (record {
                id = id;
                subject = snap.subject;
                key = key;
                kind = kind;
                parent = snap.head;
                body = body;
                consumed = none;
              })
              s
        ok (t, id))
]

unfoldable pub submit : Codec → State → Text → Text → Text → ℤ → Result (State × Text)
unfolding check_time
submit codec s subject key payload now = do
  at ← check_time now
  require (text_fits key 200) "invalid idempotency key"
  require (leb (length payload) max_payload) "occasion payload too large"
  snap ← snapshot s subject
  enqueue codec s snap (codes "user:" ++ key) external (document payload) at

abbrev pub max_state : ℕ
max_state = 1048576

-- INSERT INTO subjects and INSERT INTO commits, each with its unique keys.
unfoldable pub insert_genesis : Codec → GenesisBody → State → Result State
insert_genesis codec g s = do
  let id = codec.hash (Body.genesis g)
  require (not (any (λ r. text_eq r.id g.subject) s.subjects)) "UNIQUE constraint failed"
  require (not (any (λ c. text_eq c.id id) s.commits)) "UNIQUE constraint failed"
  ok (record s {
    subjects =
        record {
          id = g.subject;
          tick = 0;
          head = id;
          memory = g.memory;
          wake = none;
          limits = g.limits;
          accounting_wall = g.created_at;
        }
        ∷ s.subjects;
    commits = record { id = id; subject = g.subject; tick = 0; body = Body.genesis g } ∷ s.commits;
  })

-- `nonce` is what random_id() returned.
unfoldable pub create : Codec → State → Text → Limits → ℤ → Memory → Text → Result State
unfolding check_time
create codec s subject limits now initial_memory nonce = do
  require (leb (codec.state_size initial_memory) max_state) "invalid initial memory"
  require (text_fits subject 128) "invalid subject"
  at ← check_time now
  l ← limits_json limits
  t ←
      insert_genesis codec
        (record {
          subject = subject;
          created_at = at;
          nonce = nonce;
          limits = l;
          memory = initial_memory;
        })
        s
  snap ← snapshot t subject
  (u, _) ← enqueue codec t snap (codes "system:created") created (document (codes "{}")) at
  ok u
