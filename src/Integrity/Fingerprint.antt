-- ===== src/Integrity/Fingerprint.antt =====
-- `_shingle_fingerprint` of brain/merita/integrity/graph.py, on code points. What Unicode says of a
-- code point, and Python's hash of a frozen set, are parameters.
use merita.Prelude.{
  ℕ, zero, suc, ◌+◌, ◌-◌, String, Bool, true, false, ◌&&◌, List, [], ◌∷◌, ◌++◌, reverse, max,
  if◌then◌else◌, eqb, length, take, codes, is_space,
}

pub record Words : Type 0 where
  -- `c.isdigit()` and the lower case of a code point
  pub is_digit : ℕ → Bool
  pub lower : ℕ → List ℕ
  -- `str(hash(frozenset(shingles)) & 0xFFFFFFFF)`, on the list of the shingles
  pub hash_set : List (List ℕ) → String

-- a word that has been read, where it is one
abbrev pub word_before : List ℕ → List (List ℕ) → List (List ℕ)
word_before [] rest = rest
word_before (c ∷ w) rest = (c ∷ w) ∷ rest

-- `s.split()`, with the characters of the word that is being read
unfoldable pub split_words : List ℕ → List ℕ → List (List ℕ)
split_words word [] = word_before word []
split_words word (c ∷ s) =
    let cut = split_words [] s in
    let on = split_words (word ++ c ∷ []) s in if is_space c then word_before word cut else on

-- `w.strip("#")`
unfoldable pub drop_hashes : List ℕ → List ℕ
drop_hashes [] = []
drop_hashes (c ∷ s) = if eqb c b'#' then drop_hashes s else c ∷ s

unfoldable pub strip_hashes : List ℕ → List ℕ
unfolding drop_hashes
strip_hashes w = reverse (drop_hashes (reverse (drop_hashes w)))

abbrev pub all_of : (ℕ → Bool) → List ℕ → Bool
all_of p [] = true
all_of p (c ∷ s) = p c && all_of p s

-- `w.isdigit()`, false on the empty text
unfoldable pub digits : (ℕ → Bool) → List ℕ → Bool
digits p [] = false
digits p (c ∷ s) = all_of p (c ∷ s)

module _ (words : Words) where
  abbrev pub lower_word : List ℕ → List ℕ
  lower_word [] = []
  lower_word (c ∷ s) = words.lower c ++ lower_word s

  -- `[w.lower() for w in words if not w.strip("#").isdigit()]`
  unfoldable pub kept_words : List (List ℕ) → List (List ℕ)
  unfolding strip_hashes digits
  kept_words [] = []
  kept_words (w ∷ ws) =
      if digits words.is_digit (strip_hashes w) then kept_words ws else lower_word w ∷ kept_words ws

  -- `" ".join(ws)`
  unfoldable pub join : List (List ℕ) → List ℕ
  join [] = []
  join (w ∷ []) = w
  join (w ∷ v ∷ ws) = w ++ b' ' ∷ join (v ∷ ws)

  -- `n` windows of five words, at each place from the first on
  unfoldable pub windows : ℕ → List (List ℕ) → List (List ℕ)
  unfolding join
  windows zero ws = []
  windows (suc n) [] = join [] ∷ []
  windows (suc n) (w ∷ ws) = join (take 5 (w ∷ ws)) ∷ windows n ws

  unfoldable pub shingles : List (List ℕ) → List (List ℕ)
  unfolding windows
  shingles ws = windows (max 1 (length ws + 1 - 5)) ws

  unfoldable pub fingerprint : String → String
  unfolding split_words kept_words shingles
  fingerprint spec = words.hash_set (shingles (kept_words (split_words [] (codes spec))))
