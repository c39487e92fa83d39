-- ===== src/Retrieval/Words/Quoted.antt =====
-- No text becomes syntax of the search: the query that `terms` of src/memory.cpp builds is nothing
-- but quoted words.
use cogg_cpp.Base.{
  All-append, ℕ, ◌≤◌, ◌<◌, ◌≡◌, refl, ap, ◌∙◌, sym, ◌==◌, List, [], ◌∷◌, ◌++◌, ◌&&◌, Bool, true,
  false, not, ltb, length, length-append, all, All, Text, codes, arith, Bool-cases, Option, none,
  some, text_eq, inl, inr,
}
use mathlib.Core.List.{append_assoc, append-nil}
use cogg_cpp.Proposal.{is_empty}
use cogg_cpp.Retrieval.Words.{is_word_byte, flush, grow, scan, tokenize_words, join_quoted, terms}

-- A word of the tokenizer.
abbrev pub IsWord : Text → Type 0
IsWord w = (is_empty w ≡ false) × (length w ≤ 128) × (all is_word_byte w ≡ true)

all-append : (p : ℕ → Bool) (xs ys : Text) → all p (xs ++ ys) ≡ (all p xs && all p ys)
all-append p [] ys = refl
all-append p (x ∷ xs) ys = ground (arith, all-append p xs ys)

-- Words within the limit, each a word.
abbrev pub AreWords : ℕ → List Text → Type 0
AreWords n words = (length words ≤ n) × All IsWord words

flush-AreWords :
    (n : ℕ) (words : List Text) (word : Text)
    → AreWords n words
    → length word ≤ 128
    → all is_word_byte word ≡ true
    → AreWords n (flush n words word)
unfolding flush
flush-AreWords n words word (h, hs) short clean =
    elim (Bool-cases (not (is_empty word) && ltb (length words) n)) [
      | inl q ↦ rw q (
        omega (arith, length-append words (word ∷ []), room q),
        All-append IsWord words word hs (ground (arith, q), short, clean),
      )
      | inr q ↦ rw q (h, hs)
    ]
  where
    room : (not (is_empty word) && ltb (length words) n) ≡ true → length words < n
    room q = ground arith

scan-AreWords :
    (n : ℕ) (words : List Text) (word s : Text)
    → AreWords n words
    → length word ≤ 128
    → all is_word_byte word ≡ true
    → AreWords n (scan n words word s)
unfolding scan
scan-AreWords n words word [] h short clean = flush-AreWords n words word h short clean
scan-AreWords n words word (c ∷ rest) h short clean = elim (Bool-cases (is_word_byte c)) [
  | inl q ↦ rw q (
      scan-AreWords n words (grow word c) rest h (ground (arith, length-append word (c ∷ [])))
        (ground (arith, q, all-append is_word_byte word (c ∷ []))))
  | inr q ↦ rw q (
      scan-AreWords n (flush n words word) [] rest (flush-AreWords n words word h short clean)
        (omega arith) refl)
]

-- Tokenizing any text gives at most the asked number of words, each of 1 to 128 bytes that are
-- letters, digits, underscores or parts of characters beyond ASCII.
pub tokenize_words-AreWords : (s : Text) (n : ℕ) → AreWords n (tokenize_words s n)
unfolding tokenize_words
tokenize_words-AreWords s n = scan-AreWords n [] [] s (omega arith, tt) (omega arith) refl

abbrev pub with_word : Text → Option (List Text) → Option (List Text)
with_word w none = none
with_word w (some words) = some (w ∷ words)

-- The queries that are words in quotes with " OR " between them, and nothing else: what such a query
-- holds, or none for any other text.
mutual
  pub read_query : Text → Option (List Text)
  read_query [] = some []
  read_query (c ∷ s) = elim (c == 34) [ true ↦ read_word [] s | false ↦ none ]

  pub read_word : Text → Text → Option (List Text)
  read_word word [] = none
  read_word word (c ∷ s) = elim (c == 34) [
    | true ↦ with_word word (read_rest s)
    | false ↦ read_word (word ++ c ∷ []) s
  ]

  pub read_rest : Text → Option (List Text)
  read_rest [] = some []
  read_rest (a ∷ b ∷ c ∷ d ∷ e ∷ s) = elim (text_eq (a ∷ b ∷ c ∷ d ∷ e ∷ []) (codes " OR \"")) [
    | true ↦ read_word [] s
    | false ↦ none
  ]
  read_rest _ = none

abbrev quoted_rest : List Text → Text
quoted_rest [] = []
quoted_rest (w ∷ rest) = codes " OR " ++ (34 ∷ (w ++ 34 ∷ quoted_rest rest))

join_quoted-rest :
    (c : ℕ) (out : Text) (words : List Text)
    → join_quoted (c ∷ out) words ≡ (c ∷ out) ++ quoted_rest words
unfolding join_quoted
join_quoted-rest c out [] = sym (append-nil (c ∷ out))
join_quoted-rest c out (w ∷ rest) =
    join_quoted-rest c ((out ++ codes " OR ") ++ (34 ∷ w ++ 34 ∷ [])) rest
    ∙ ap (λ u. c ∷ u)
        (append_assoc (out ++ codes " OR ") (34 ∷ w ++ 34 ∷ []) (quoted_rest rest)
          ∙ append_assoc out (codes " OR ") ((34 ∷ w ++ 34 ∷ []) ++ quoted_rest rest)
          ∙ ap (λ (u : Text). out ++ (codes " OR " ++ 34 ∷ u))
              (append_assoc w (34 ∷ []) (quoted_rest rest)))

read_word-word :
    (acc w t : Text)
    → all is_word_byte w ≡ true
    → read_word acc (w ++ 34 ∷ t) ≡ with_word (acc ++ w) (read_rest t)
unfolding read_word
read_word-word acc [] t h = ap (λ a. with_word a (read_rest t)) (sym (append-nil acc))
read_word-word acc (c ∷ w) t h = elim (Bool-cases (c == 34)) [
  | inl q ↦ ground (arith, q)
  | inr q ↦
      rw (q, read_word)
        (read_word-word (acc ++ c ∷ []) w t (ground arith)
          ∙ ap (λ a. with_word a (read_rest t)) (append_assoc acc (c ∷ []) w))
]

read_rest-quoted_rest :
    (words : List Text) → All IsWord words → read_rest (quoted_rest words) ≡ some words
unfolding read_rest text_eq
read_rest-quoted_rest [] h = refl
read_rest-quoted_rest (w ∷ rest) ((filled, short, clean), hs) =
    read_word-word [] w (quoted_rest rest) clean ∙ ap (with_word w) (read_rest-quoted_rest rest hs)

pub read_query-join_quoted :
    (words : List Text) → All IsWord words → read_query (join_quoted [] words) ≡ some words
unfolding read_query join_quoted
read_query-join_quoted [] h = refl
read_query-join_quoted (w ∷ rest) ((filled, short, clean), hs) =
    ap read_query (join_quoted-rest 34 (w ++ 34 ∷ []) rest)
    ∙ ap (read_word []) (append_assoc w (34 ∷ []) (quoted_rest rest))
    ∙ read_word-word [] w (quoted_rest rest) clean
    ∙ ap (with_word w) (read_rest-quoted_rest rest hs)

-- Whatever the text, the query that is built of it is nothing but the words of the text, at most 32,
-- each in quotes, with " OR " between them: a strict reader of such queries gives back the words, so
-- no quote in the text closes one of the query and nothing of the text stands outside quotes.
pub read_query-terms : (s : Text) → read_query (terms s) ≡ some (tokenize_words s 32)
unfolding terms
read_query-terms s = read_query-join_quoted (tokenize_words s 32) (tokenize_words-AreWords s 32).1
