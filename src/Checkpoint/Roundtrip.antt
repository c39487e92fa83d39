-- ===== src/Checkpoint/Roundtrip.antt =====
-- What `write_checkpoint` of src/checkpoint.cpp writes, `read_checkpoint` reads back.
use cogg_cpp.Base.{
  ℕ, ◌+◌, ◌≤◌, ◌<◌, ◌≡◌, refl, ap, ◌∙◌, some, [], ◌∷◌, ◌++◌, ◌&&◌, true, ltb, leb, ◌==◌, length,
  length-append, take, drop, take_append, drop_append, text_eq, text_eq_refl, Text, ok,
  require-bind, ok-injective, arith, subst,
}
use cogg_cpp.Checkpoint.{
  magic, put_bytes, get_u64, Formats, Checkpoint, prefix_of, prefix_size, write_checkpoint,
  read_body, read_checkpoint, max_metadata,
}
use cogg_cpp.Checkpoint.Bytes.{get_bytes-put_bytes}
use mathlib.Core.List.{append_assoc}

take_first : (n : ℕ) (xs ys : Text) → length xs ≡ n → take n (xs ++ ys) ≡ xs
take_first n xs ys e = subst (λ k. take k (xs ++ ys) ≡ xs) e (take_append xs ys)

drop_first : (n : ℕ) (xs ys : Text) → length xs ≡ n → drop n (xs ++ ys) ≡ ys
drop_first n xs ys e = subst (λ k. drop k (xs ++ ys) ≡ ys) e (drop_append xs ys)

leb-of : {m n : ℕ} → m ≤ n → leb m n ≡ true
leb-of h = ground arith

ltb-of : {m n : ℕ} → m < n → ltb m n ≡ true
ltb-of h = ground arith

eq-of : {m n : ℕ} → m ≡ n → (m == n) ≡ true
eq-of h = ground arith

take_whole : (xs : Text) → take (length xs) xs ≡ xs
take_whole [] = refl
take_whole (x ∷ xs) = ap (λ ys. x ∷ ys) (take_whole xs)

module _ {A : Type 0} (f : Formats A) (header state : Text) where
  unfoldable pub file : Text
  file = prefix_of f header state ++ (header ++ state)

  digests : Text
  digests = f.digest header ++ (f.digest state ++ (header ++ state))

  -- The bytes after the two lengths.
  after_lengths : drop 24 file ≡ digests
  unfolding file digests put_bytes
  after_lengths = append_assoc (f.digest header) (f.digest state) (header ++ state)

  module _ (sized : (x : Text) → length (f.digest x) ≡ 32) where
    header_digest : take 32 (drop 24 file) ≡ f.digest header
    unfolding digests
    header_digest = ap (take 32) after_lengths ∙ take_first 32 (f.digest header) _ (sized header)

    after_header_digest : drop 56 file ≡ f.digest state ++ (header ++ state)
    unfolding file digests put_bytes
    after_header_digest =
        ap (drop 32) (append_assoc (f.digest header) (f.digest state) (header ++ state))
        ∙ drop_first 32 (f.digest header) _ (sized header)

    state_digest : take 32 (drop 56 file) ≡ f.digest state
    state_digest = ap (take 32) after_header_digest ∙ take_first 32 (f.digest state) _ (sized state)

    after_prefix : drop 88 file ≡ header ++ state
    unfolding file put_bytes
    after_prefix =
        drop_first 64 (f.digest header ++ f.digest state) (header ++ state) (
          omega
            (arith, length-append (f.digest header) (f.digest state), sized header, sized state))

    pub length-file : length file ≡ 88 + length header + length state
    unfolding file put_bytes
    length-file = omega (
      arith,
      length-append (f.digest header ++ f.digest state) (header ++ state),
      length-append (f.digest header) (f.digest state),
      length-append header state,
      sized header,
      sized state,
    )

    read_body-file :
        (metadata : A)
        → f.parse header ≡ some metadata
        → read_body f file (length header) (length state)
          ≡ ok (record { metadata = metadata; state = state })
    unfolding read_body
    read_body-file metadata parsed = rw (
      after_prefix,
      take_append header state,
      drop_append header state,
      take_whole state,
      header_digest,
      state_digest,
      text_eq_refl (f.digest header),
      text_eq_refl (f.digest state),
      parsed,
    )

    pub header_size : length header < 18446744073709551616 → get_u64 (drop 8 file) ≡ length header
    unfolding file put_bytes
    header_size small = get_bytes-put_bytes 8 (length header) _ small

    pub state_size : length state < 18446744073709551616 → get_u64 (drop 16 file) ≡ length state
    unfolding file put_bytes
    state_size small = get_bytes-put_bytes 8 (length state) _ small

    pub magic_first : text_eq magic (take 8 file) ≡ true
    unfolding file
    magic_first = text_eq_refl magic

    whole : leb prefix_size (length file) ≡ true
    whole = leb-of (omega (arith, length-file))

    lengths_match : (length file == prefix_size + length header + length state) ≡ true
    lengths_match = eq-of (omega (arith, length-file))

    read_file :
        (max_bytes : ℕ) (metadata : A)
        → max_bytes ≤ 4294967296
        → 0 < length state
        → length state ≤ max_bytes
        → 0 < length header
        → length header ≤ max_metadata
        → f.parse header ≡ some metadata
        → read_checkpoint f file max_bytes ≡ ok (record { metadata = metadata; state = state })
    unfolding read_checkpoint
    read_file max_bytes metadata bounded filled fits named short parsed = rw (
      whole,
      magic_first,
      header_size (omega arith),
      state_size (omega arith),
      leb-of bounded,
      ltb-of filled,
      leb-of fits,
      ltb-of named,
      leb-of short,
      lengths_match,
      read_body-file metadata parsed,
    )

-- What a written checkpoint passed, and the bytes that it became.
pub write_parts :
    {A : Type 0} (f : Formats A) (cp : Checkpoint A) (max_bytes : ℕ) (bytes : Text)
    → write_checkpoint f cp max_bytes ≡ ok bytes
    → (max_bytes ≤ 4294967296)
      × (0 < length cp.state)
      × (length cp.state ≤ max_bytes)
      × (0 < length (f.dump cp.metadata))
      × (length (f.dump cp.metadata) ≤ max_metadata)
      × (file f (f.dump cp.metadata) cp.state ≡ bytes)
unfolding write_checkpoint file
write_parts f cp max_bytes bytes written =
    let (fits, e1) =
      require-bind
        (leb max_bytes 4294967296 && (ltb 0 (length cp.state) && leb (length cp.state) max_bytes))
        "checkpoint state exceeds byte limit" _ written in
    let (named, e2) =
      require-bind
        (ltb 0 (length (f.dump cp.metadata)) && leb (length (f.dump cp.metadata)) max_metadata)
        "checkpoint metadata exceeds byte limit" _ e1 in
    (ground arith, ground arith, ground arith, ground arith, ground arith, ok-injective _ _ e2)

-- A file that `write_checkpoint` wrote is read back whole, under the same limit, when the digest has
-- 32 bytes and the parser inverts the dump of the metadata.
pub read_checkpoint-write_checkpoint :
    {A : Type 0} (f : Formats A) (cp : Checkpoint A) (max_bytes : ℕ) (bytes : Text)
    → ((x : Text) → length (f.digest x) ≡ 32)
    → f.parse (f.dump cp.metadata) ≡ some cp.metadata
    → write_checkpoint f cp max_bytes ≡ ok bytes
    → read_checkpoint f bytes max_bytes ≡ ok cp
read_checkpoint-write_checkpoint f cp max_bytes bytes sized parsed written =
    let (bounded, filled, fits, named, short, e) = write_parts f cp max_bytes bytes written in
    subst (λ b. read_checkpoint f b max_bytes ≡ ok cp) e
      (read_file f (f.dump cp.metadata) cp.state sized max_bytes cp.metadata bounded filled fits
        named short parsed)
