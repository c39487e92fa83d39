-- ===== src/Retrieval/Words.antt =====
-- The query of a full-text search: `tokenize_words`, `ascii_lower`, `terms` and `expanded_terms` of
-- src/memory.cpp, on bytes.
pub mod Quoted
pub mod Synonyms
use cogg_cpp.Base.{
  ℕ, suc, ◌+◌, ◌-◌, ◌/◌, ◌%◌, ◌==◌, List, [], ◌∷◌, ◌++◌, map, ◌&&◌, ◌||◌, Bool, true, false, not,
  ltb, leb, if◌then◌else◌, length, Text, codes, text_eq, contains,
}
use cogg_cpp.Proposal.{is_empty}

-- std::isalnum(c) || c >= 128 || c == '_'
abbrev pub is_word_byte : ℕ → Bool
is_word_byte c =
    (leb 48 c && leb c 57)
    || (leb 65 c && leb c 90)
    || (leb 97 c && leb c 122)
    || leb 128 c
    || c == 95

-- flush
unfoldable pub flush : ℕ → List Text → Text → List Text
flush max_words words word =
    if not (is_empty word) && ltb (length words) max_words then words ++ word ∷ [] else words

-- A word keeps its first 128 bytes.
abbrev pub grow : Text → ℕ → Text
grow word c = if ltb (length word) 128 then word ++ c ∷ [] else word

unfoldable pub scan : ℕ → List Text → Text → Text → List Text
unfolding flush
scan max_words words word [] = flush max_words words word
scan max_words words word (c ∷ rest) =
    scan max_words (if is_word_byte c then words else flush max_words words word)
      (if is_word_byte c then grow word c else []) rest

unfoldable pub tokenize_words : Text → ℕ → List Text
unfolding scan
tokenize_words s max_words = scan max_words [] [] s

abbrev pub lower_byte : ℕ → ℕ
lower_byte c = if leb 65 c && leb c 90 then c - 65 + 97 else c

unfoldable pub ascii_lower : Text → Text
ascii_lower s = map lower_byte s

-- The loop that joins the quoted words; `out` is what it has so far.
unfoldable pub join_quoted : Text → List Text → Text
join_quoted out [] = out
join_quoted out (w ∷ rest) =
    join_quoted ((if is_empty out then out else out ++ codes " OR ") ++ (34 ∷ w ++ 34 ∷ [])) rest

unfoldable pub terms : Text → Text
unfolding tokenize_words join_quoted
terms s = join_quoted [] (tokenize_words s 32)

-- What `push_token` captures: the words added, and their lower-case forms seen so far.
pub record Extra : Type 0 where
  pub seen : List Text
  pub extra : List Text

-- One cleaned word of a token.
unfoldable pub push_word : List Text → Text → Extra → Extra
unfolding ascii_lower
push_word base_lower clean x =
    let low = ascii_lower clean in
    if contains base_lower low || contains x.seen low then x else record {
      seen = low ∷ x.seen;
      extra = if ltb (length x.extra) 32 then x.extra ++ clean ∷ [] else x.extra;
    }

unfoldable pub push_words : List Text → List Text → Extra → Extra
unfolding push_word
push_words base_lower [] x = x
push_words base_lower (w ∷ rest) x = push_words base_lower rest (push_word base_lower w x)

unfoldable pub push_tokens : List Text → List Text → Extra → Extra
unfolding push_words tokenize_words
push_tokens base_lower [] x = x
push_tokens base_lower (t ∷ rest) x =
    push_tokens base_lower rest (push_words base_lower (tokenize_words t 8) x)

-- The custom synonyms of a word, in the order of their keys.
unfoldable pub push_custom : List Text → Text → List (Text × List Text) → Extra → Extra
unfolding push_tokens
push_custom base_lower low [] x = x
push_custom base_lower low ((k, vals) ∷ rest) x =
    push_custom base_lower low rest
      (if text_eq (ascii_lower k) low then push_tokens base_lower vals x else x)

unfoldable pub push_clusters : List Text → Text → List (List Text) → Extra → Extra
unfolding push_tokens
push_clusters base_lower low [] x = x
push_clusters base_lower low (cluster ∷ rest) x =
    push_clusters base_lower low rest
      (if contains cluster low then push_tokens base_lower cluster x else x)

-- The loop over the words of the query. `clusters` is the static table of synonyms.
unfoldable pub push_base :
    List Text → List (Text × List Text) → List (List Text) → List Text → Extra → Extra
unfolding push_custom push_clusters
push_base base_lower custom clusters [] x = x
push_base base_lower custom clusters (w ∷ rest) x = push_base base_lower custom clusters rest (
    push_clusters base_lower (ascii_lower w) clusters
      (push_custom base_lower (ascii_lower w) custom x))

abbrev pub no_extra : Extra
no_extra = record { seen = []; extra = [] }

unfoldable pub expand : List (List Text) → Text → List (Text × List Text) → List Text
unfolding push_base tokenize_words
expand clusters s custom =
    let base = tokenize_words s 32 in
    (push_base (map ascii_lower base) custom clusters base no_extra).extra

unfoldable pub expanded_terms : List (List Text) → Text → List (Text × List Text) → Text
unfolding expand join_quoted
expanded_terms clusters s custom = join_quoted [] (expand clusters s custom)
