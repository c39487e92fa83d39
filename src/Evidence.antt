-- ===== src/Evidence.antt =====
-- What a host attaches to an admission and a model to a commit: `validate_inputs` and
-- `validate_admission_context` of src/outcome.cpp, `validate_execution`, `validate_emission` and
-- `make_emission` of src/routing.cpp. The shape of an object (its members and their types) is that
-- of the record; what remains are the checks on the values.
use cogg_cpp.Base.{
  ℕ, Option, none, some, List, [], ◌∷◌, ◌&&◌, Bool, true, false, not, leb, ◌==◌, length, Text,
  text_eq, contains, ℤ, pos, negsuc, Result, ok, require, ◌>>◌,
}
use cogg_cpp.Proposal.{Proposal, MemoryWrite, MemoryNote, text_fits, is_digest, is_empty}
use cogg_cpp.Store.{
  Codec, Body, Input, InputKind, observation, inference, Execution, Emission, AttemptBody,
}

abbrev is_observation : InputKind → Bool
is_observation observation = true
is_observation inference = false

-- The loop over the sources of one input; `links` holds those before this one.
unfoldable pub check_links : List Text → List Text → List Text → Result (Unit {0})
check_links seen links [] = ok tt
check_links seen links (x ∷ rest) = do
  require (is_digest x) "invalid input source"
  require (contains seen x && not (contains links x)) "missing, forward or duplicate input source"
  check_links seen (x ∷ links) rest

abbrev same_bool : Bool → Bool → Bool
same_bool true b = b
same_bool false b = not b

-- One round of the loop of `validate_inputs`; `seen` holds the ids of the inputs before this one.
unfoldable pub validate_input : Codec → List Text → Input → Result (Unit {0})
unfolding check_links
validate_input codec seen input = do
  let b = input.body
  require (text_fits b.producer 200) "invalid input body"
  require (same_bool (is_observation b.kind) (is_empty b.sources)) "input provenance required"
  check_links seen [] b.sources
  require
      (is_digest input.id
        && text_eq input.id (codec.hash (Body.input b))
        && not (contains seen input.id))
      "input hash mismatch or duplicate"

unfoldable pub validate_inputs_from : Codec → List Text → List Input → Result (Unit {0})
unfolding validate_input
validate_inputs_from codec seen [] = ok tt
validate_inputs_from codec seen (input ∷ rest) = do
  validate_input codec seen input
  validate_inputs_from codec (input.id ∷ seen) rest

-- `size` is the size of the dump of the whole array, which the JSON library computes.
unfoldable pub validate_inputs : Codec → (List Input → ℕ) → List Input → Result (Unit {0})
unfolding validate_inputs_from
validate_inputs codec size inputs = do
  require (leb (length inputs) 16 && leb (size inputs) 32768) "input budget exceeded"
  validate_inputs_from codec [] inputs

-- {head, occasion, inputs}; a null occasion stands for the due wake at the head.
pub record AdmissionContext : Type 0 where
  pub head : Text
  pub occasion : Option Text
  pub inputs : List Input

abbrev digest_or_null : Option Text → Bool
digest_or_null none = true
digest_or_null (some id) = is_digest id

unfoldable pub validate_admission_context :
    Codec → (List Input → ℕ) → Option AdmissionContext → Result (Unit {0})
unfolding validate_inputs
validate_admission_context codec size none = ok tt
validate_admission_context codec size (some c) = do
  require (is_digest c.head && digest_or_null c.occasion) "invalid admission context"
  validate_inputs codec size c.inputs

unfoldable pub validate_execution : Option Execution → Result (Unit {0})
validate_execution none = ok tt
validate_execution (some e) =
    require (text_fits e.executor 64 && text_fits e.backend 200 && text_fits e.session 64)
      "invalid execution descriptor"

-- operator== of the JSON library on the objects of two descriptors, two delays, two notes, two
-- writes and two proposals.
unfoldable pub execution_eq : Execution → Execution → Bool
execution_eq a b =
    text_eq a.executor b.executor
    && text_eq a.backend b.backend
    && text_eq a.session b.session
    && same_bool a.capabilities.remote b.capabilities.remote
    && same_bool a.capabilities.exact_tokens b.capabilities.exact_tokens
    && same_bool a.capabilities.checkpoint b.capabilities.checkpoint
    && same_bool a.capabilities.cancellation b.capabilities.cancellation

abbrev delay_eq : Option ℤ → Option ℤ → Bool
delay_eq none none = true
delay_eq (some (pos a)) (some (pos b)) = a == b
delay_eq (some (negsuc a)) (some (negsuc b)) = a == b
delay_eq _ _ = false

abbrev pub list_eq : {A : Type 0} → (A → A → Bool) → List A → List A → Bool
list_eq eq [] [] = true
list_eq eq [] (y ∷ ys) = false
list_eq eq (x ∷ xs) [] = false
list_eq eq (x ∷ xs) (y ∷ ys) = eq x y && list_eq eq xs ys

abbrev write_eq : MemoryWrite → MemoryWrite → Bool
write_eq a b = text_eq a.key b.key && text_eq a.value b.value

abbrev note_eq : MemoryNote → MemoryNote → Bool
note_eq a b =
    text_eq a.key b.key
    && text_eq a.text b.text
    && text_eq a.note_type b.note_type
    && text_eq a.note_status b.note_status
    && list_eq text_eq a.sources b.sources
    && list_eq text_eq a.covers b.covers

unfoldable pub proposal_eq : Proposal → Proposal → Bool
proposal_eq a b =
    text_eq a.kind b.kind
    && text_eq a.text b.text
    && list_eq write_eq a.memory b.memory
    && delay_eq a.wake_after_ms b.wake_after_ms
    && list_eq note_eq a.notes b.notes

unfoldable pub bind_emission :
    Option Emission → Option Execution → Text → AttemptBody → Proposal → Result (Unit {0})
unfolding execution_eq proposal_eq
bind_emission none none id a p = ok tt
bind_emission (some e) none id a p = require false "emission without routed admission"
bind_emission none (some x) id a p = require false "emission admission binding mismatch"
bind_emission (some e) (some x) id a p = do
  require
      (text_eq e.attempt id
        && text_eq e.subject a.subject
        && text_eq e.parent a.parent
        && text_eq e.occasion a.occasion
        && execution_eq e.execution x
        && proposal_eq e.proposal p)
      "emission admission binding mismatch"
  require (leb (length e.provider) 8192) "invalid provider receipt"

unfoldable pub validate_emission :
    Option Emission → Text → AttemptBody → Proposal → Result (Unit {0})
unfolding validate_execution bind_emission
validate_emission emission id admission proposal = do
  validate_execution admission.execution
  bind_emission emission admission.execution id admission proposal

-- `subject`, `head` and `occasion` are those of the attempt's Present; `provider` is the telemetry.
unfoldable pub make_emission : Text → Text → Text → Text → Execution → Proposal → Text → Emission
make_emission id subject head occasion execution proposal provider = record {
  attempt = id;
  subject = subject;
  parent = head;
  occasion = occasion;
  execution = execution;
  proposal = proposal;
  provider = provider;
}
