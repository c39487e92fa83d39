-- ===== src/Display/Safe.antt =====
-- What `display_text` and `excerpt` of tools/tui/protocol.cpp promise to the terminal.
use cogg_cpp.Base.{
  ℕ, zero, suc, ◌≤◌, ◌<◌, ◌⊎◌, ◌≡◌, refl, inl, inr, [], ◌∷◌, ◌++◌, ◌&&◌, ◌||◌, Bool, true, false,
  not, ltb, leb, ◌==◌, length, take, get_elem?, Bool-cases, Text, arith, if◌then◌else◌,
}
use cogg_cpp.Display.{is_c1, shown, display_text, cut_at, continues, truncated, excerpt}

abbrev pub is_shown : ℕ → Bool
is_shown b = b == 10 || (leb 32 b && not (b == 127))

-- No byte is a control character other than a line feed, and no two bytes encode one of the second
-- set.
abbrev pub is_safe : Text → Bool
is_safe [] = true
is_safe (c ∷ []) = is_shown c
is_safe (c ∷ d ∷ rest) = is_shown c && (not (is_c1 c d) && is_safe (d ∷ rest))

is_shown-shown : (c : ℕ) → is_shown (shown c) ≡ true
is_shown-shown c = ground arith

is_c1-shown : (c d : ℕ) → is_c1 c d ≡ false → is_c1 (shown c) (shown d) ≡ false
is_c1-shown c d h = ground arith

-- A safe text may follow a byte when it starts with what the next byte shows, or with a question mark.
after_shown :
    (c d : ℕ) (rest : Text)
    → is_c1 c d ≡ false
    → is_safe (display_text (d ∷ rest)) ≡ true
    → is_safe (shown c ∷ display_text (d ∷ rest)) ≡ true
unfolding display_text
after_shown c d [] h s = rw (is_shown-shown c, is_c1-shown c d h, is_shown-shown d) refl
after_shown c d (e ∷ r) h s = elim (Bool-cases (is_c1 d e)) [
  | inl q ↦ ground (arith, q, is_shown-shown c)
  | inr q ↦ ground (arith, q, is_shown-shown c, is_c1-shown c d h)
]

after_mark : (out : Text) → is_safe out ≡ true → is_safe (63 ∷ out) ≡ true
after_mark [] s = refl
after_mark (b ∷ out) s = ground arith

-- Whatever the bytes of a text, what is displayed holds no control character but line feeds: no other
-- byte below 32, no DEL, and no encoding in UTF-8 of U+0080 to U+009F.
pub display_text_safe : (s : Text) → is_safe (display_text s) ≡ true
unfolding display_text
display_text_safe [] = refl
display_text_safe (c ∷ []) = is_shown-shown c
display_text_safe (c ∷ d ∷ rest) = elim (Bool-cases (is_c1 c d)) [
  | inl q ↦ ground (arith, q, after_mark (display_text rest) (display_text_safe rest))
  | inr q ↦ ground (arith, q, after_shown c d rest q (display_text_safe (d ∷ rest)))
]

cut_at-le : (s : Text) (n : ℕ) → cut_at s n ≤ n
unfolding cut_at
cut_at-le s zero = omega arith
cut_at-le s (suc n) = ground (arith, cut_at-le s n)

cut_at-boundary : (s : Text) (n : ℕ) → 0 < cut_at s n → continues (get_elem? s (cut_at s n)) ≡ false
unfolding cut_at
cut_at-boundary s zero h = ground arith
cut_at-boundary s (suc n) h = elim (Bool-cases (continues (get_elem? s (suc n)))) [
  | inl q ↦ rw q (cut_at-boundary s n (rw q at h))
  | inr q ↦ rw q q
]

length-take-le : (n : ℕ) (s : Text) → length (take n s) ≤ n
length-take-le zero s = omega arith
length-take-le (suc n) [] = omega arith
length-take-le (suc n) (x ∷ s) = omega (arith, length-take-le n s)

abbrev pub IsExcerpt : Text → ℕ → Text → Type 0
IsExcerpt s bytes out =
    (n : ℕ) × (n ≤ bytes)
    × (out ≡ (if leb (length s) bytes then s else take n s ++ truncated))
    × ((n ≡ 0) ⊎ (continues (get_elem? s n) ≡ false))

-- An excerpt is the text itself when that fits; otherwise it is a prefix of at most the given length,
-- which is empty or ends where a character of the text ends, and then the mark.
pub excerpt-IsExcerpt : (s : Text) (bytes : ℕ) → IsExcerpt s bytes (excerpt s bytes)
unfolding excerpt
excerpt-IsExcerpt s bytes = (
  cut_at s bytes,
  cut_at-le s bytes,
  refl,
  elim (Bool-cases (ltb 0 (cut_at s bytes))) [
    | inl q ↦ inr (cut_at-boundary s bytes (ground arith))
    | inr q ↦ inl (ground arith)
  ],
)
