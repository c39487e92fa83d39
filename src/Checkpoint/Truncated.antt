-- ===== src/Checkpoint/Truncated.antt =====
-- A truncated file is refused: `read_checkpoint` of src/checkpoint.cpp after a crash that left a
-- prefix of what `write_checkpoint` writes.
use cogg_cpp.Base.{
  ℕ, zero, suc, ◌+◌, ◌≤◌, ◌<◌, ◌≡◌, ◌≢◌, refl, sym, [], ◌∷◌, ◌&&◌, true, ltb, leb, ◌==◌, length,
  take, drop, text_eq, Text, ok, require-bind, leb→le, arith, subst,
}
use cogg_cpp.Checkpoint.{
  magic, get_u64, get_bytes, Formats, Checkpoint, prefix_size, write_checkpoint, read_checkpoint,
  max_metadata,
}
use cogg_cpp.Checkpoint.Roundtrip.{file, header_size, state_size, length-file, write_parts}

length-take : (n : ℕ) (xs : Text) → n ≤ length xs → length (take n xs) ≡ n
length-take zero xs h = refl
length-take (suc n) [] h = omega arith
length-take (suc n) (x ∷ xs) h = omega (arith, length-take n xs (omega arith))

get_bytes-take : (k n : ℕ) (xs : Text) → k ≤ n → get_bytes k (take n xs) ≡ get_bytes k xs
unfolding get_bytes
get_bytes-take zero n xs h = refl
get_bytes-take (suc k) zero xs h = omega arith
get_bytes-take (suc k) (suc n) [] h = refl
get_bytes-take (suc k) (suc n) (x ∷ xs) h = ground (arith, get_bytes-take k n xs (omega arith))

-- The number at an offset is that of the whole file, when the prefix holds all of it.
get_bytes-drop :
    (at k n : ℕ) (xs : Text)
    → at + k ≤ n
    → get_bytes k (drop at (take n xs)) ≡ get_bytes k (drop at xs)
get_bytes-drop zero k n xs h = get_bytes-take k n xs (omega arith)
get_bytes-drop (suc at) k zero xs h = omega arith
get_bytes-drop (suc at) k (suc n) [] h = refl
get_bytes-drop (suc at) k (suc n) (x ∷ xs) h = get_bytes-drop at k n xs (omega arith)

-- A file that was read has the length that its prefix names.
read_length :
    {A : Type 0} (f : Formats A) (cp : Checkpoint A) (limit : ℕ) (b : Text)
    → read_checkpoint f b limit ≡ ok cp
    → (88 ≤ length b) × (length b ≡ 88 + get_u64 (drop 8 b) + get_u64 (drop 16 b))
unfolding read_checkpoint
read_length f cp limit b e =
    let (long, e1) = require-bind (leb prefix_size (length b)) "truncated checkpoint header" _ e in
    let (kind, e2) = require-bind (text_eq magic (take 8 b)) "unsupported checkpoint format" _ e1 in
    let (fits, e3) =
      require-bind
        (leb limit 4294967296 && (ltb 0 (get_u64 (drop 16 b)) && leb (get_u64 (drop 16 b)) limit))
        "checkpoint state exceeds byte limit" _ e2 in
    let (named, e4) =
      require-bind (ltb 0 (get_u64 (drop 8 b)) && leb (get_u64 (drop 8 b)) max_metadata)
        "checkpoint metadata exceeds byte limit" _ e3 in
    let (matches, e5) =
      require-bind (length b == prefix_size + get_u64 (drop 8 b) + get_u64 (drop 16 b))
        "checkpoint length mismatch" _ e4 in
    (leb→le prefix_size (length b) long, eq_of matches)
  where
    eq_of : {m n : ℕ} → (m == n) ≡ true → m ≡ n
    eq_of h = ground arith

-- No proper prefix of a file that `write_checkpoint` wrote is read as a checkpoint, under whatever
-- limit, when the digest has 32 bytes.
pub read_checkpoint-take :
    {A : Type 0} (f : Formats A) (cp other : Checkpoint A) (max_bytes limit n : ℕ) (bytes : Text)
    → ((x : Text) → length (f.digest x) ≡ 32)
    → write_checkpoint f cp max_bytes ≡ ok bytes
    → n < length bytes
    → read_checkpoint f (take n bytes) limit ≢ ok other
read_checkpoint-take f cp other max_bytes limit n bytes sized written short returned =
    let (bounded, filled, fits, named, small, e) = write_parts f cp max_bytes bytes written in
    refused (f.dump cp.metadata) cp.state (omega arith) (omega arith)
      (subst (λ b. n < length b) (sym e) short)
      (subst (λ b. read_checkpoint f (take n b) limit ≡ ok other) (sym e) returned)
  where
    refused :
        (header state : Text)
        → length header < 18446744073709551616
        → length state < 18446744073709551616
        → n < length (file f header state)
        → read_checkpoint f (take n (file f header state)) limit ≡ ok other
        → ⊥
    refused header state hh hs short' returned' =
        let (long, named) = read_length f other limit (take n (file f header state)) returned' in
        let there : length (take n (file f header state)) ≡ n =
          length-take n (file f header state) (omega arith) in
        omega (
          arith,
          long,
          named,
          there,
          length-file f header state sized,
          get_bytes-drop 8 8 n (file f header state) (omega (arith, long, there)),
          get_bytes-drop 16 8 n (file f header state) (omega (arith, long, there)),
          header_size f header state sized hh,
          state_size f header state sized hs,
        )
