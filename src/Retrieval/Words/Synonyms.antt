-- ===== src/Retrieval/Words/Synonyms.antt =====
-- The synonyms that `expanded_terms` of src/memory.cpp adds to a query.
use cogg_cpp.Base.{
  some, All-append, ◌≤◌, ◌<◌, ◌≡◌, List, [], ◌∷◌, map, ◌||◌, Bool, true, false, ltb, if◌then◌else◌,
  length, length-append, All, Text, text_eq, contains, arith, Bool-cases, inl, inr,
}
use cogg_cpp.Retrieval.Words.{
  ascii_lower, tokenize_words, Extra, push_word, push_words, push_tokens, push_custom,
  push_clusters, push_base, no_extra, expand, expanded_terms,
}
use cogg_cpp.Retrieval.Words.Quoted.{
  IsWord, tokenize_words-AreWords, read_query, read_query-join_quoted,
}

-- At most 32 words, each a word of the tokenizer that, in lower case, is not one of the query.
abbrev pub AreNew : List Text → List Text → Type 0
AreNew base extra =
    (length extra ≤ 32) × All IsWord extra × All (λ w. contains base (ascii_lower w) ≡ false) extra

module _ (base : List Text) where
  push_word-AreNew :
      (w : Text) (x : Extra)
      → IsWord w
      → AreNew base x.extra
      → AreNew base (push_word base w x).extra
  unfolding push_word
  push_word-AreNew w x word (few, words, new) =
      elim (Bool-cases (contains base (ascii_lower w) || contains x.seen (ascii_lower w))) [
        | inl q ↦ rw q (few, words, new)
        | inr q ↦ rw q (elim (Bool-cases (ltb (length x.extra) 32)) [
          | inl r ↦ rw r (
            omega (arith, length-append x.extra (w ∷ []), room r),
            All-append IsWord x.extra w words word,
            All-append (λ v. contains base (ascii_lower v) ≡ false) x.extra w new
                (ground (arith, q)),
          )
          | inr r ↦ rw r (few, words, new)
        ])
      ]
    where
      room : ltb (length x.extra) 32 ≡ true → length x.extra < 32
      room r = ground arith

  push_words-AreNew :
      (ws : List Text) (x : Extra)
      → All IsWord ws
      → AreNew base x.extra
      → AreNew base (push_words base ws x).extra
  unfolding push_words
  push_words-AreNew [] x h k = k
  push_words-AreNew (w ∷ ws) x (h, hs) k =
      push_words-AreNew ws (push_word base w x) hs (push_word-AreNew w x h k)

  push_tokens-AreNew :
      (ts : List Text) (x : Extra) → AreNew base x.extra → AreNew base (push_tokens base ts x).extra
  unfolding push_tokens
  push_tokens-AreNew [] x k = k
  push_tokens-AreNew (t ∷ ts) x k =
      push_tokens-AreNew ts (push_words base (tokenize_words t 8) x)
        (push_words-AreNew (tokenize_words t 8) x (tokenize_words-AreWords t 8).1 k)

  when-AreNew :
      (b : Bool) (x y : Extra)
      → AreNew base x.extra
      → AreNew base y.extra
      → AreNew base (if b then x else y).extra
  when-AreNew true x y h k = h
  when-AreNew false x y h k = k

  push_custom-AreNew :
      (low : Text) (custom : List (Text × List Text)) (x : Extra)
      → AreNew base x.extra
      → AreNew base (push_custom base low custom x).extra
  unfolding push_custom
  push_custom-AreNew low [] x k = k
  push_custom-AreNew low ((key, vals) ∷ rest) x k =
      push_custom-AreNew low rest _
        (when-AreNew (text_eq (ascii_lower key) low) _ _ (push_tokens-AreNew vals x k) k)

  push_clusters-AreNew :
      (low : Text) (clusters : List (List Text)) (x : Extra)
      → AreNew base x.extra
      → AreNew base (push_clusters base low clusters x).extra
  unfolding push_clusters
  push_clusters-AreNew low [] x k = k
  push_clusters-AreNew low (cluster ∷ rest) x k =
      push_clusters-AreNew low rest _
        (when-AreNew (contains cluster low) _ _ (push_tokens-AreNew cluster x k) k)

  push_base-AreNew :
      (custom : List (Text × List Text)) (clusters : List (List Text)) (ws : List Text) (x : Extra)
      → AreNew base x.extra
      → AreNew base (push_base base custom clusters ws x).extra
  unfolding push_base
  push_base-AreNew custom clusters [] x k = k
  push_base-AreNew custom clusters (w ∷ ws) x k = push_base-AreNew custom clusters ws _ (
      push_clusters-AreNew (ascii_lower w) clusters _
        (push_custom-AreNew (ascii_lower w) custom x k))

-- Whatever the query and the synonyms, the expansion adds at most 32 words, each a word of the
-- tokenizer and none of them, in lower case, a word of the query; and the query that is built of them
-- is nothing but those words, each in quotes, with " OR " between them.
pub expand-AreNew :
    (clusters : List (List Text)) (s : Text) (custom : List (Text × List Text))
    → AreNew (map ascii_lower (tokenize_words s 32)) (expand clusters s custom)
      × (read_query (expanded_terms clusters s custom) ≡ some (expand clusters s custom))
unfolding expanded_terms expand
expand-AreNew clusters s custom = (new, read_query-join_quoted _ new.1)
  where
    new : AreNew (map ascii_lower (tokenize_words s 32)) (expand clusters s custom)
    new =
        push_base-AreNew (map ascii_lower (tokenize_words s 32)) custom clusters
          (tokenize_words s 32) no_extra (omega arith, tt, tt)
