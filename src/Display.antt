-- ===== src/Display.antt =====
-- Text on its way to a terminal: `display_text` and `excerpt` of tools/tui/protocol.cpp, on bytes.
pub mod Safe
use cogg_cpp.Base.{
  ℕ, zero, suc, List, [], ◌∷◌, ◌++◌, ◌&&◌, ◌||◌, Bool, true, false, not, ltb, leb, ◌==◌,
  if◌then◌else◌, length, take, get_elem?, Option, none, some, Text,
}

-- A control character of the second set (U+0080 to U+009F) in UTF-8: 0xc2, then 0x80 to 0x9f.
abbrev pub is_c1 : ℕ → ℕ → Bool
is_c1 c d = c == 194 && (leb 128 d && leb d 159)

-- Line feeds stay; the other control characters below 32, and DEL, become spaces.
abbrev pub shown : ℕ → ℕ
shown c = if ltb c 32 || c == 127 then (if c == 10 then 10 else 32) else c

unfoldable pub display_text : Text → Text
display_text [] = []
display_text (c ∷ []) = shown c ∷ []
display_text (c ∷ d ∷ rest) = elim (is_c1 c d) [
  | true ↦ 63 ∷ display_text rest
  | false ↦ shown c ∷ display_text (d ∷ rest)
]

-- (s[bytes] & 0xc0) == 0x80: the byte continues a character.
abbrev pub continues : Option ℕ → Bool
continues none = false
continues (some b) = leb 128 b && ltb b 192

-- while (bytes && ...) --bytes
unfoldable pub cut_at : Text → ℕ → ℕ
cut_at s zero = zero
cut_at s (suc n) = if continues (get_elem? s (suc n)) then cut_at s n else suc n

-- " … [truncated]" in UTF-8.
abbrev pub truncated : Text
truncated =
    32 ∷ 226 ∷ 128 ∷ 166 ∷ 32 ∷ 91 ∷ 116 ∷ 114 ∷ 117 ∷ 110 ∷ 99 ∷ 97 ∷ 116 ∷ 101 ∷ 100 ∷ 93 ∷ []

unfoldable pub excerpt : Text → ℕ → Text
unfolding cut_at
excerpt s bytes = if leb (length s) bytes then s else take (cut_at s bytes) s ++ truncated
