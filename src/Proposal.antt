-- ===== src/Proposal.antt =====
-- What a model may ask for: `Proposal`, `MemoryWrite` and `Abstention` of include/cogg/kernel.hpp,
-- `MemoryNote` of include/cogg/memory.hpp, and their validation in src/kernel.cpp (`validate`),
-- src/memory.cpp (`validate_memory_notes`) and src/outcome.cpp. A JSON value that is only stored,
-- compared and measured is the text of its `dump()`.
use cogg_cpp.Base.{
  ℕ, Option, none, some, List, [], ◌∷◌, ◌&&◌, ◌||◌, Bool, true, false, not, ltb, leb, ◌==◌, length,
  all, Text, codes, text_eq, has_nul, contains, ℤ, pos, negsuc, Result, ok, require, ◌>>◌,
}
use cogg_cpp.Budget.{max_delay}

pub record MemoryWrite : Type 0 where
  pub key : Text
  pub value : Text

-- Field names follow the source; `note_type` and `note_status` are its `type` and `status`.
pub record MemoryNote : Type 0 where
  pub key : Text
  pub text : Text
  pub note_type : Text
  pub note_status : Text
  pub sources : List Text
  pub covers : List Text

pub record Proposal : Type 0 where
  pub kind : Text
  pub text : Text
  pub memory : List MemoryWrite
  pub wake_after_ms : Option ℤ
  pub notes : List MemoryNote

pub record Abstention : Type 0 where
  pub reason : Text
  pub detail : Text

pub data Outcome : Type 0 where
  proposes : Proposal → Outcome
  abstains : Abstention → Outcome

-- `Proposal settlement;`, which is also a default-constructed Proposal.
abbrev pub null_proposal : Proposal
null_proposal = record {
  kind = codes "null";
  text = [];
  memory = [];
  wake_after_ms = none;
  notes = [];
}

abbrev pub max_payload : ℕ
max_payload = 65536

-- output_limits.hpp
abbrev pub max_memory_writes : ℕ
max_memory_writes = 64

abbrev pub max_notes : ℕ
max_notes = 8

abbrev pub max_sources : ℕ
max_sources = 32

-- The test of check_text, text_ok and bounded.
abbrev pub text_fits : Text → ℕ → Bool
text_fits s limit = ltb 0 (length s) && leb (length s) limit && not (has_nul s)

abbrev is_hex_digit : ℕ → Bool
is_hex_digit c = (leb b'0' c && leb c b'9') || (leb b'a' c && leb c b'f')

-- 64 lower-case hexadecimal digits.
unfoldable pub is_digest : Text → Bool
is_digest s = length s == 64 && all is_hex_digit s

-- The loop over `n.sources`; `src` holds the sources before this one.
unfoldable pub check_sources : List Text → List Text → Result (Unit {0})
check_sources src [] = ok tt
check_sources src (x ∷ rest) = do
  require (is_digest x) "invalid source id"
  require (not (contains src x)) "duplicate source"
  check_sources (x ∷ src) rest

-- The loop over `n.covers`.
unfoldable pub check_covers : List Text → List Text → List Text → Result (Unit {0})
check_covers src cover [] = ok tt
check_covers src cover (x ∷ rest) = do
  require (contains src x && not (contains cover x)) "covers must be distinct explicit sources"
  check_covers src (x ∷ cover) rest

abbrev known_type : Text → Bool
known_type t =
    text_eq t (codes "note")
    || text_eq t (codes "fact")
    || text_eq t (codes "episode")
    || text_eq t (codes "task")
    || text_eq t (codes "summary")
    || text_eq t (codes "procedure")
    || text_eq t (codes "prospective")

abbrev known_status : Text → Bool
known_status s =
    text_eq s (codes "active")
    || text_eq s (codes "open")
    || text_eq s (codes "closed")
    || text_eq s (codes "retracted")

abbrev pub has_type : MemoryNote → Text → Bool
has_type n t = text_eq n.note_type t

abbrev pub has_status : MemoryNote → Text → Bool
has_status n s = text_eq n.note_status s

abbrev pub is_empty {ℓ} : {A : Type ℓ} → List A → Bool
is_empty [] = true
is_empty (x ∷ xs) = false

-- One round of the loop of `validate_memory_notes`, after the key has been found new.
unfoldable pub validate_note : MemoryNote → Result (Unit {0})
unfolding check_sources check_covers is_digest
validate_note n = do
  require (known_type n.note_type) "invalid memory type"
  require (known_status n.note_status) "invalid memory status"
  require
      (not (has_status n (codes "open") || has_status n (codes "closed"))
        || has_type n (codes "task"))
      "only tasks can be open or closed"
  require (leb (length n.sources) max_sources && leb (length n.covers) max_sources)
      "too many memory sources"
  check_sources [] n.sources
  check_covers n.sources [] n.covers
  require (is_empty n.covers || (has_type n (codes "summary") && has_status n (codes "active")))
      "only an active summary can compact"
  require (not (has_type n (codes "summary")) || not (is_empty n.sources))
      "summary requires evidence sources"
  require
      (not (has_type n (codes "procedure"))
        || has_status n (codes "retracted")
        || not (is_empty n.sources))
      "procedure requires evidence sources"

unfoldable pub validate_notes_from : List Text → List MemoryNote → Result (Unit {0})
validate_notes_from keys [] = ok tt
validate_notes_from keys (n ∷ rest) = do
  require (text_fits n.key 128) "invalid memory text/key"
  require (text_fits n.text 8192) "invalid memory text/key"
  require (not (contains keys n.key)) "duplicate typed memory key"
  validate_note n
  validate_notes_from (n.key ∷ keys) rest

unfoldable pub validate_memory_notes : List MemoryNote → Result (Unit {0})
unfolding validate_notes_from
validate_memory_notes notes = do
  require (leb (length notes) max_notes) "too many typed memory writes"
  validate_notes_from [] notes

-- The loop over `p.memory` in `validate`.
unfoldable pub validate_writes : List Text → List MemoryWrite → Result (Unit {0})
validate_writes keys [] = ok tt
validate_writes keys (w ∷ rest) = do
  require (text_fits w.key 128) "invalid memory key"
  require (not (contains keys w.key)) "duplicate memory key"
  require (leb (length w.value) max_payload) "memory value too large"
  validate_writes (w.key ∷ keys) rest

abbrev wake_in_range : Option ℤ → Bool
wake_in_range none = true
wake_in_range (some (pos t)) = leb t max_delay
wake_in_range (some (negsuc t)) = false

abbrev pub is_speech : Proposal → Bool
is_speech p = text_eq p.kind (codes "speech")

abbrev pub known_kind : Proposal → Bool
known_kind p =
    text_eq p.kind (codes "null")
    || text_eq p.kind (codes "reflection")
    || text_eq p.kind (codes "speech")

unfoldable pub validate : Proposal → Result (Unit {0})
unfolding validate_memory_notes validate_writes
validate p = do
  validate_memory_notes p.notes
  require (known_kind p) "unsupported transition kind"
  require (leb (length p.text) max_payload) "speech too large"
  require (is_speech p || is_empty p.text) "only speech may emit text"
  require (leb (length p.memory) max_memory_writes) "too many memory writes"
  validate_writes [] p.memory
  require (wake_in_range p.wake_after_ms) "wake interval outside supported range"

-- The checks of parse_outcome on an abstention, which outcome_json repeats.
unfoldable pub validate_abstention : Abstention → Result (Unit {0})
validate_abstention a = do
  require
      (text_eq a.reason (codes "missing_input")
        || text_eq a.reason (codes "unsupported")
        || text_eq a.reason (codes "uncertain")
        || text_eq a.reason (codes "refused"))
      "invalid abstention reason"
  require (leb (length a.detail) 512 && not (has_nul a.detail)) "invalid abstention detail"

-- outcome_json: the checks that it makes.
unfoldable pub validate_outcome : Outcome → Result (Unit {0})
unfolding validate validate_abstention
validate_outcome (proposes p) = validate p
validate_outcome (abstains a) = validate_abstention a
