-- ===== src/SelfState/Allowed.antt =====
-- What the guard of src/self_state.cpp lets a proposal write.
use cogg_cpp.Base.{
  ◌≡◌, sym, ap, ◌∙◌, ◌⊎◌, inl, inr, List, [], ◌∷◌, ◌&&◌, true, false, not, if◌then◌else◌, any, All,
  All-weaken, Option, none, some, Text, text_eq, text_eq→eq, ok, Bool-cases, and_parts,
  require-bind, require-eq-ok, check-bind, row-bind, >>=-eq-ok, arith, ◌>>=◌, require, if-cases,
}
use cogg_cpp.Proposal.{Proposal, MemoryWrite}
use cogg_cpp.Store.{Codec, AttemptBody, Snapshot}
use cogg_cpp.SelfState
use cogg_cpp.SelfState.{
  profile_key, profile_valid, is_reserved_key, Profile, Grant, Packet, Documents, has_key, at_key,
  view_of, grant_valid,
}
use cogg_cpp.SelfState.Apply.{
  protected_write, next_revision, revision_eq, apply_write, apply_memory, apply_notes, apply,
}
use cogg_cpp.SelfState.Guard.{
  find_packet, admitted_occasion, zeros, guard_state, guard_packet, guard_content, self_guard,
}

-- A new profile that the grant names.
abbrev pub IsGranted : Documents → Grant → Text → Text → Type 0
IsGranted d g key value =
    (key ≡ profile_key)
    × (p : Profile) × (d.read_profile value ≡ some p)
    × (profile_valid d p ≡ ok tt)
    × (g.profile ≡ some p.app_data)

abbrev Allowed : Documents → Grant → MemoryWrite → Type 0
Allowed d g w = (is_reserved_key w.key ≡ false) ⊎ IsGranted d g w.key w.value

apply_write-IsGranted :
    (d : Documents) (g : Grant) (version : Text) (w : MemoryWrite) (state next : SelfState.State)
    → apply_write d g version w state ≡ ok next
    → IsGranted d g w.key w.value
unfolding apply_write
apply_write-IsGranted d g version w state next h =
    let (named, h) = require-bind (text_eq w.key profile_key) "reserved self memory key" _ h in
    let (granted, given, h) = row-bind g.profile "profile change not granted" _ h in
    let (p, read, h) = row-bind (d.read_profile w.value) "invalid self object fields" _ h in
    let (valid, h) = check-bind (profile_valid d p) _ h in
    let (q, h) =
      require-bind
        (text_eq p.app_data granted
          && revision_eq p.revision (next_revision state.profile.revision))
        "profile change differs from grant" _ h in
    let (same, r) =
      and_parts (text_eq p.app_data granted)
        (revision_eq p.revision (next_revision state.profile.revision)) q in
    (
      text_eq→eq w.key profile_key named,
      p,
      read,
      valid,
      given ∙ ap some (sym (text_eq→eq p.app_data granted same)),
    )

apply_memory-Allowed :
    (d : Documents) (g : Grant) (version : Text) (ws : List MemoryWrite)
    (state next : SelfState.State)
    → apply_memory d g version ws state ≡ ok next
    → All (Allowed d g) ws
unfolding apply_memory
apply_memory-Allowed d g version [] state next h = tt
apply_memory-Allowed d g version (w ∷ ws) state next h =
    let (mid, first, h) =
      >>=-eq-ok (if is_reserved_key w.key then apply_write d g version w state else ok state)
        (apply_memory d g version ws) h in
    (
      elim (Bool-cases (is_reserved_key w.key)) [
        | inl q ↦ inr (apply_write-IsGranted d g version w state mid (ground (arith, q, first)))
        | inr q ↦ inl q
      ],
      apply_memory-Allowed d g version ws mid next h,
    )

none-reserved :
    (ws : List MemoryWrite)
    → any (λ w. is_reserved_key w.key) ws ≡ false
    → All (λ w. is_reserved_key w.key ≡ false) ws
none-reserved [] h = tt
none-reserved (w ∷ ws) h = (ground (arith, h), none-reserved ws (ground (arith, h)))

-- A profile that a packet of the admission grants.
abbrev pub IsGrantedIn : Documents → AttemptBody → Text → Text → Type 0
IsGrantedIn d a key value =
    (content : Text) × (packet : Packet) × (find_packet none a.inputs ≡ ok (some content))
    × (d.read_packet content ≡ some packet)
    × IsGranted d packet.grant key value

abbrev pub AllowedIn : Documents → AttemptBody → MemoryWrite → Type 0
AllowedIn d a w = (is_reserved_key w.key ≡ false) ⊎ IsGrantedIn d a w.key w.value

unprotected-AllowedIn :
    (d : Documents) (a : AttemptBody) (p : Proposal)
    → not (protected_write p) ≡ true
    → All (AllowedIn d a) p.memory
unfolding protected_write
unprotected-AllowedIn d a p h =
    All-weaken p.memory (λ w q. inl q) (none-reserved p.memory (ground (arith, h)))

guard_content-AllowedIn :
    (d : Documents) (codec : Codec) (subject : Text) (a : AttemptBody) (p : Proposal)
    (found : Option Text)
    → find_packet none a.inputs ≡ ok found
    → guard_content d codec subject a p found ≡ ok tt
    → All (AllowedIn d a) p.memory
unfolding guard_content guard_packet apply
guard_content-AllowedIn d codec subject a p none e h =
    unprotected-AllowedIn d a p (require-eq-ok (not (protected_write p)) _ h)
guard_content-AllowedIn d codec subject a p (some content) e h =
    let (packet, read, h) =
      row-bind (d.read_packet content) "invalid self object fields"
        (guard_packet d codec subject a p) h in
    let (occasion, q, h) = >>=-eq-ok (admitted_occasion a) _ h in
    let (q, h) = check-bind (grant_valid d codec packet.grant packet.view occasion) _ h in
    let (next, applied, h) =
      >>=-eq-ok (apply d (guard_state packet.view) p packet.grant zeros) _ h in
    let (mid, first, h) =
      >>=-eq-ok (apply_memory d packet.grant zeros p.memory (guard_state packet.view))
        (apply_notes packet.grant zeros p.notes) applied in
    All-weaken p.memory
      (λ w allowed. elim allowed [ inl q ↦ inl q | inr k ↦ inr (content, packet, e, read, k) ])
      (apply_memory-Allowed d packet.grant zeros p.memory (guard_state packet.view) mid first)

pub self_guard-AllowedIn :
    (d : Documents) (codec : Codec) (subject : Text) (snap : Snapshot) (a : AttemptBody)
    (p : Proposal)
    → self_guard d codec subject snap a p ≡ ok tt
    → All (AllowedIn d a) p.memory
unfolding self_guard
self_guard-AllowedIn d codec subject snap a p h =
    elim (if-cases (any (has_key profile_key) snap.memory)
      (find_packet none a.inputs >>= guard_content d codec subject a p)
      (require (not (protected_write p)) "self.* keys require a self-state subject") h) [
        | inl (q, k) ↦
            (let (found, e, k) =
                >>=-eq-ok (find_packet none a.inputs) (guard_content d codec subject a p) k in
              guard_content-AllowedIn d codec subject a p found e k)
        | inr (q, k) ↦
            unprotected-AllowedIn d a p
              (require-eq-ok (not (protected_write p)) "self.* keys require a self-state subject" k)
      ]
