-- ===== src/Integrity/Numbers.antt =====
-- `_shingle_fingerprint` of brain/merita/integrity/graph.py drops the words of a spec that are numbers:
-- what is left of a spec with one number in it.
use merita.Prelude.{
  ℕ, String, true, false, ◌≡◌, refl, ap, ◌∙◌, inl, inr, List, [], ◌∷◌, ◌++◌, append_assoc,
  append-nil, Bool-cases, codes, is_space, All,
}
use merita.Integrity.Fingerprint.{
  Words, word_before, split_words, strip_hashes, digits, kept_words, lower_word, shingles,
  fingerprint,
}

-- No character of the word is a space.
abbrev pub IsWord : List ℕ → Type 0
IsWord w = All (λ c. is_space c ≡ false) w

-- A text that is empty, or that begins behind the end of a word.
abbrev pub Ends : List ℕ → Type 0
Ends [] = Unit
Ends (c ∷ s) = is_space c ≡ true

word_before-append :
    (word : List ℕ) (xs ys : List (List ℕ))
    → word_before word (xs ++ ys) ≡ word_before word xs ++ ys
word_before-append [] xs ys = refl
word_before-append (c ∷ w) xs ys = refl

-- A space cuts the text into two, whose words are split apart.
split_words_at_space :
    (word pre rest : List ℕ) (c : ℕ)
    → is_space c ≡ true
    → split_words word (pre ++ c ∷ rest) ≡ split_words word pre ++ split_words [] rest
unfolding split_words
split_words_at_space word [] rest c cut = rw cut (word_before-append word [] _)
split_words_at_space word (d ∷ pre) rest c cut = elim (Bool-cases (is_space d)) [
  | inl space ↦ rw (space, split_words_at_space [] pre rest c cut) (word_before-append word _ _)
  | inr letter ↦ rw letter (split_words_at_space (word ++ d ∷ []) pre rest c cut)
]

split_words_word :
    (word w rest : List ℕ)
    → IsWord w
    → Ends rest
    → split_words word (w ++ rest) ≡ word_before (word ++ w) (split_words [] rest)
unfolding split_words
split_words_word word [] [] is ends = rw append-nil refl
split_words_word word [] (c ∷ rest) is ends = rw (append-nil, ends) refl
split_words_word word (d ∷ w) rest (letter, is) ends =
    rw letter (split_words_word (word ++ d ∷ []) w rest is ends ∙ rw append_assoc refl)

module _ (words : Words) where
  -- The word is a number, with or without hashes around it.
  abbrev pub IsNumeral : List ℕ → Type 0
  IsNumeral w = IsWord w × (digits words.is_digit (strip_hashes w) ≡ true)

  kept_words-append :
      (xs ys : List (List ℕ))
      → kept_words words (xs ++ ys) ≡ kept_words words xs ++ kept_words words ys
  unfolding kept_words
  kept_words-append [] ys = refl
  kept_words-append (x ∷ xs) ys = elim (Bool-cases (digits words.is_digit (strip_hashes x))) [
    | inl number ↦ rw number (kept_words-append xs ys)
    | inr other ↦ rw other (ap (◌∷◌ (lower_word words x)) (kept_words-append xs ys))
  ]

  kept_words_numeral :
      (w : List ℕ) (rest : List (List ℕ))
      → digits words.is_digit (strip_hashes w) ≡ true
      → kept_words words (word_before w rest) ≡ kept_words words rest
  unfolding kept_words
  kept_words_numeral [] rest number = refl
  kept_words_numeral (c ∷ w) rest number = rw number refl

  -- The text is `pre`, a number, and `post`.
  abbrev pub IsNumbered : List ℕ → List ℕ → String → Type 0
  IsNumbered pre post s = (w : List ℕ) × IsNumeral w × (codes s ≡ pre ++ b' ' ∷ (w ++ post))

  module _ (pre post : List ℕ) (ends : Ends post) where
    -- The words that count are those around the number.
    abbrev pub around : List (List ℕ)
    around = kept_words words (split_words [] pre) ++ kept_words words (split_words [] post)

    kept_words_numbered :
        (s : String) → IsNumbered pre post s → kept_words words (split_words [] (codes s)) ≡ around
    kept_words_numbered s (w, (is, number), e) =
        rw
          (
            e,
            split_words_at_space [] pre (w ++ post) b' ' refl,
            split_words_word [] w post is ends,
            kept_words-append (split_words [] pre) (word_before w (split_words [] post)),
            kept_words_numeral w (split_words [] post) number,
          )
          refl

    -- Such a spec has the fingerprint of the words around its number.
    pub fingerprint_numbered :
        (s : String)
        → IsNumbered pre post s
        → fingerprint words s ≡ words.hash_set (shingles words around)
    unfolding fingerprint
    fingerprint_numbered s is =
        ap (λ ws. words.hash_set (shingles words ws)) (kept_words_numbered s is)
