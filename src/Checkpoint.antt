-- ===== src/Checkpoint.antt =====
-- The cache files of src/checkpoint.cpp: the bytes that `write_checkpoint` writes and the checks by
-- which `read_checkpoint` accepts a file. SHA-256 and the JSON library are parameters.
pub mod Bytes
pub mod Roundtrip
pub mod Truncated
use cogg_cpp.Base.{
  ℕ, zero, suc, ◌+◌, ◌*◌, ◌/◌, ◌%◌, Option, none, some, List, [], ◌∷◌, ◌++◌, ◌&&◌, Bool, true, not,
  ltb, leb, ◌==◌, length, take, drop, text_eq, Text, Result, ok, require, require_row, ◌>>=◌, ◌>>◌,
}

abbrev pub max_metadata : ℕ
max_metadata = 1048576

-- 'C','O','G','G','K','V',0,1
abbrev pub magic : Text
magic = 67 ∷ 79 ∷ 71 ∷ 71 ∷ 75 ∷ 86 ∷ 0 ∷ 1 ∷ []

abbrev pub prefix_size : ℕ
prefix_size = 88

-- Byte i of the value is what is left after i shifts by eight bits.
unfoldable pub put_bytes : ℕ → ℕ → Text
put_bytes zero value = []
put_bytes (suc n) value = value % 256 ∷ put_bytes n (value / 256)

abbrev pub put_u64 : ℕ → Text
put_u64 value = put_bytes 8 value

unfoldable pub get_bytes : ℕ → Text → ℕ
get_bytes zero bytes = 0
get_bytes (suc n) [] = 0
get_bytes (suc n) (b ∷ rest) = b + 256 * get_bytes n rest

abbrev pub get_u64 : Text → ℕ
get_u64 bytes = get_bytes 8 bytes

-- What the code calls: the digest of some bytes, the dump of a metadata object, and its parser, which
-- returns nothing for what is not an object.
pub record Formats (A : Type 0) : Type 0 where
  pub digest : Text → Text
  pub dump : A → Text
  pub parse : Text → Option A

pub record Checkpoint (A : Type 0) : Type 0 where
  pub metadata : A
  pub state : Text

module _ {A : Type 0} where
  abbrev pub prefix_of : Formats A → Text → Text → Text
  prefix_of f header state =
      magic
      ++ (put_u64 (length header)
          ++ (put_u64 (length state) ++ (f.digest header ++ f.digest state)))

  -- The bytes of the file, in the order in which `write_checkpoint` writes them.
  unfoldable pub write_checkpoint : Formats A → Checkpoint A → ℕ → Result Text
  unfolding put_bytes
  write_checkpoint f cp max_bytes = do
    require
        (leb max_bytes 4294967296 && (ltb 0 (length cp.state) && leb (length cp.state) max_bytes))
        "checkpoint state exceeds byte limit"
    let header = f.dump cp.metadata
    require (ltb 0 (length header) && leb (length header) max_metadata)
        "checkpoint metadata exceeds byte limit"
    ok (prefix_of f header cp.state ++ (header ++ cp.state))

  -- The checks after the prefix has been read, given the lengths it names.
  unfoldable pub read_body : Formats A → Text → ℕ → ℕ → Result (Checkpoint A)
  read_body f file header_size state_size = do
    let header = take header_size (drop prefix_size file)
    require (text_eq (f.digest header) (take 32 (drop 24 file)))
        "checkpoint metadata checksum mismatch"
    metadata ← require_row (f.parse header) "invalid checkpoint metadata"
    let state = take state_size (drop header_size (drop prefix_size file))
    require (text_eq (f.digest state) (take 32 (drop 56 file))) "checkpoint state checksum mismatch"
    ok (record { metadata = metadata; state = state })

  -- `file` holds the bytes of the regular file; a missing one is the caller's `none`.
  unfoldable pub read_checkpoint : Formats A → Text → ℕ → Result (Checkpoint A)
  unfolding get_bytes read_body
  read_checkpoint f file max_bytes = do
    require (leb prefix_size (length file)) "truncated checkpoint header"
    require (text_eq magic (take 8 file)) "unsupported checkpoint format"
    let header_size = get_u64 (drop 8 file)
    let state_size = get_u64 (drop 16 file)
    require (leb max_bytes 4294967296 && (ltb 0 state_size && leb state_size max_bytes))
        "checkpoint state exceeds byte limit"
    require (ltb 0 header_size && leb header_size max_metadata)
        "checkpoint metadata exceeds byte limit"
    require (length file == prefix_size + header_size + state_size) "checkpoint length mismatch"
    read_body f file header_size state_size
