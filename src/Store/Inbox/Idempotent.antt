-- ===== src/Store/Inbox/Idempotent.antt =====
-- The idempotency of `Store::submit` in src/kernel.cpp.
use cogg_cpp.Base.{
  ℕ, ◌≡◌, refl, ap, ◌∙◌, Bool, inl, inr, none, some, [], ◌∷◌, ◌++◌, true, false, leb, length, find,
  find-append, find-holds, Text, codes, text_eq, text_eq_refl, ℤ, pos, negsuc, ok, err, error,
  text_eq→eq, >>=-eq-ok, require-bind, row-bind, Option-cases, arith,
}
use cogg_cpp.Proposal.{max_payload, text_fits}
use cogg_cpp.Store.{
  State, Codec, Body, OccasionKind, created, external, scheduled, kind_eq, Payload, due_at,
  document, payload_eq, Snapshot, OccasionRow, SubjectRow, subject_row, snapshot,
}
use cogg_cpp.Store.Inbox.{is_keyed, enqueue, submit}

payload_eq_refl : (same : Text → Text → Bool) (p : Payload) → payload_eq same p p ≡ true
unfolding payload_eq
payload_eq_refl same (due_at t) = ground arith
payload_eq_refl same (document d) = ground (arith, text_eq_refl d)

kind_eq_refl : (k : OccasionKind) → kind_eq k k ≡ true
kind_eq_refl created = refl
kind_eq_refl external = refl
kind_eq_refl scheduled = refl

-- The row that `enqueue` inserts under a new key.
abbrev keyed_row : Codec → Snapshot → Text → OccasionKind → Payload → ℕ → OccasionRow
keyed_row codec snap key kind payload now = record {
  id = codec.hash (
      Body.event (record {
        subject = snap.subject;
        key = key;
        kind = kind;
        payload = payload;
        received_at = now;
        parent = snap.head;
      }));
  subject = snap.subject;
  key = key;
  kind = kind;
  parent = snap.head;
  body = record {
    subject = snap.subject;
    key = key;
    kind = kind;
    payload = payload;
    received_at = now;
    parent = snap.head;
  };
  consumed = none;
}

-- What `enqueue` returns is in the inbox afterwards, under its key and with its content.
pub enqueue_keyed :
    (codec : Codec) (s : State) (snap : Snapshot) (key : Text) (kind : OccasionKind)
    (payload : Payload) (now : ℕ) {t : State} {id : Text}
    → enqueue codec s snap key kind payload now ≡ ok (t, id)
    → (o : OccasionRow) × (find (is_keyed snap.subject key) t.occasions ≡ some o)
      × (o.id ≡ id)
      × (payload_eq codec.json_eq o.body.payload payload ≡ true)
      × (kind_eq o.body.kind kind ≡ true)
      × (t.subjects ≡ s.subjects)
unfolding enqueue
enqueue_keyed codec s snap key kind payload now e =
    elim (Option-cases (find (is_keyed snap.subject key) s.occasions)) [
      | inl q ↦
          let row : OccasionRow = keyed_row codec snap key kind payload now in
          (
            row,
            ground (
              arith,
              q,
              find-append (is_keyed snap.subject key) s.occasions (row ∷ []),
              text_eq_refl snap.subject,
              text_eq_refl key,
            ),
            ground (arith, q),
            payload_eq_refl codec.json_eq payload,
            kind_eq_refl kind,
            ground (arith, q),
          )
      | inr (o, q) ↦ (
        o,
        ground (arith, q),
        ground (arith, q),
        ground (arith, q),
        ground (arith, q),
        ground (arith, q),
      )
    ]

-- Under a new key, what is in the inbox afterwards is the payload itself.
enqueue_new :
    (codec : Codec) (s : State) (snap : Snapshot) (key : Text) (kind : OccasionKind)
    (payload : Payload) (now : ℕ) {t : State} {id : Text}
    → find (is_keyed snap.subject key) s.occasions ≡ none
    → enqueue codec s snap key kind payload now ≡ ok (t, id)
    → (o : OccasionRow) × (find (is_keyed snap.subject key) t.occasions ≡ some o)
      × (o.body.payload ≡ payload)
      × (t.subjects ≡ s.subjects)
unfolding enqueue
enqueue_new codec s snap key kind payload now q e =
    let row : OccasionRow = keyed_row codec snap key kind payload now in
    (
      row,
      ground (
        arith,
        q,
        find-append (is_keyed snap.subject key) s.occasions (row ∷ []),
        text_eq_refl snap.subject,
        text_eq_refl key,
      ),
      refl,
      ground (arith, q),
    )

-- A key that is in the inbox with the same content returns its occasion, and the state is unchanged.
pub enqueue_again :
    (codec : Codec) (s : State) (snap : Snapshot) (key : Text) (kind : OccasionKind)
    (payload : Payload) (now : ℕ) (o : OccasionRow)
    → find (is_keyed snap.subject key) s.occasions ≡ some o
    → payload_eq codec.json_eq o.body.payload payload ≡ true
    → kind_eq o.body.kind kind ≡ true
    → enqueue codec s snap key kind payload now ≡ ok (s, o.id)
unfolding enqueue
enqueue_again codec s snap key kind payload now o q p k = ground (arith, q, p, k)

snapshot-cong :
    (s t : State) (subject : Text)
    → t.subjects ≡ s.subjects
    → snapshot t subject ≡ snapshot s subject
unfolding snapshot
snapshot-cong s t subject e = ground (arith, e)

pub snapshot-id :
    (s : State) (subject : Text) (snap : Snapshot)
    → snapshot s subject ≡ ok snap
    → snap.subject ≡ subject
unfolding snapshot
snapshot-id s subject snap e =
    let (r, q, h) = row-bind (subject_row s subject) _ _ e in
    ground (
      arith,
      h,
      text_eq→eq r.id subject,
      find-holds (λ (x : SubjectRow). text_eq x.id subject) s.subjects r q,
    )

-- The steps of a submission that succeeded.
submit_parts :
    (codec : Codec) (s t : State) (subject key payload id : Text) (now : ℤ)
    → submit codec s subject key payload now ≡ ok (t, id)
    → (snap : Snapshot) × (at : ℕ) × (snapshot s subject ≡ ok snap)
      × (text_fits key 200 ≡ true)
      × (leb (length payload) max_payload ≡ true)
      × (enqueue codec s snap (codes "user:" ++ key) external (document payload) at ≡ ok (t, id))
unfolding submit
submit_parts codec s t subject key payload id (negsuc n) e = cc
submit_parts codec s t subject key payload id (pos at) e =
    let (fits, e1) = require-bind (text_fits key 200) _ _ e in
    let (small, e2) = require-bind (leb (length payload) max_payload) _ _ e1 in
    let (snap, q, r) = >>=-eq-ok (snapshot s subject) _ e2 in (snap, at, q, fits, small, r)

-- In the state that a submission leaves, submitting the same key and payload again, at whatever
-- time that is not negative, returns the same occasion and changes nothing.
pub submit_again :
    (codec : Codec) (s t : State) (subject key payload id : Text) (now : ℤ)
    → submit codec s subject key payload now ≡ ok (t, id)
    → (later : ℕ) → submit codec t subject key payload (pos later) ≡ ok (t, id)
unfolding submit
submit_again codec s t subject key payload id now e later =
    let (snap, at, q, fits, small, r) = submit_parts codec s t subject key payload id now e in
    let (o, found, same, p, k, kept) =
      enqueue_keyed codec s snap (codes "user:" ++ key) external (document payload) at r in
    let again =
      enqueue_again codec t snap (codes "user:" ++ key) external (document payload) later o found p
        k in
    ground (arith, q, fits, small, snapshot-cong s t subject kept, again, same)

-- In the state that a submission under a new key leaves, submitting the key with a payload that JSON
-- equality tells apart from the first, and that is not too large, is refused as a reuse of the key, at
-- whatever time that is not negative.
pub submit_reused :
    (codec : Codec) (s t : State) (subject key payload id other : Text) (now : ℤ)
    → find (is_keyed subject (codes "user:" ++ key)) s.occasions ≡ none
    → submit codec s subject key payload now ≡ ok (t, id)
    → payload_eq codec.json_eq (document payload) (document other) ≡ false
    → leb (length other) max_payload ≡ true
    → (later : ℕ)
    → submit codec t subject key other (pos later)
      ≡ err (error "idempotency key reused with different content")
unfolding submit enqueue
submit_reused codec s t subject key payload id other now fresh e differs fits_other later =
    let (snap, at, q, fits, small, r) = submit_parts codec s t subject key payload id now e in
    let same : snap.subject ≡ subject = snapshot-id s subject snap q in
    let (o, found, content, kept) =
      enqueue_new codec s snap (codes "user:" ++ key) external (document payload) at
        (ap (λ i. find (is_keyed i (codes "user:" ++ key)) s.occasions) same ∙ fresh) r in
    ground (
      arith,
      q,
      fits,
      fits_other,
      snapshot-cong s t subject kept,
      found,
      ap (λ p. payload_eq codec.json_eq p (document other)) content,
      differs,
    )
