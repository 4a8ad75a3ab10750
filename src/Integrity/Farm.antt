-- ===== src/Integrity/Farm.antt =====
-- A farm against brain/merita/integrity/graph.py: a poster who emits one spec over and over with another
-- number as one of its words, while anything else is observed.
use merita.Prelude.{
  ℕ, ◌≤◌, String, Bool, true, false, ◌||◌, ◌≡◌, refl, sym, ap, ◌∙◌, inl, inr, none, List, [], ◌∷◌,
  ◌++◌, map, append_assoc, append-nil, arith, Bool-cases, if◌then◌else◌, ◌==◌, eq_iff, All, length,
  value_at, value_at-update_at,
}
use merita.Prelude.Int.{pos}
use merita.Prelude.Float.{Float, fin, inf, neg_inf, nan, lt, le, eq}
use merita.Models.{Receipt}
use merita.Integrity.{
  Graph, Arithmetic, observe, observe_spec, observe_funding, or_empty, distinct, diversity_of,
  spec_diversity, pairing_entropy, cycle_conservation, share_ancestor, quarantined, assess,
  quarantine_threshold,
}
use merita.Integrity.Scores.{pow_two_pos}
use merita.Integrity.Quarantine.{IsRounding, one_weak_signal_quarantines}
use merita.Integrity.Fingerprint.{Words, fingerprint, shingles}
use merita.Integrity.Numbers.{Ends, IsNumbered, around, fingerprint_numbered}

-- What the graph is shown: a payment, a funder of a wallet, a spec of a poster.
pub data Event : Type 0 where
  paid : Receipt → Event
  funded : String → String → Event
  posted : String → String → Event

unfoldable pub ingest : Words → List Event → Graph → Graph
ingest words [] g = g
ingest words (paid r ∷ es) g = ingest words es (observe r g)
ingest words (funded wallet funder ∷ es) g = ingest words es (observe_funding wallet funder g)
ingest words (posted poster spec ∷ es) g = ingest words es (observe_spec words poster spec g)

-- the specs of one poster, in their order
abbrev pub specs_by : String → List Event → List String
specs_by poster [] = []
specs_by poster (posted p spec ∷ es) =
    if p == poster then spec ∷ specs_by poster es else specs_by poster es
specs_by poster (paid r ∷ es) = specs_by poster es
specs_by poster (funded wallet funder ∷ es) = specs_by poster es

abbrev prints_of : String → Graph → List String
prints_of poster g = or_empty (value_at poster g.specs)

observe-prints :
    (poster : String) (r : Receipt) (g : Graph)
    → prints_of poster (observe r g) ≡ prints_of poster g
unfolding observe
observe-prints poster r g = ground arith

observe_spec-prints :
    (words : Words) (poster p spec : String) (g : Graph)
    → prints_of poster (observe_spec words p spec g)
      ≡ prints_of poster g ++ (if p == poster then fingerprint words spec ∷ [] else [])
unfolding observe_spec
observe_spec-prints words poster p spec g = elim (Bool-cases (p == poster)) [
  | inl same ↦
      rw
        (value_at-update_at (λ o. or_empty o ++ fingerprint words spec ∷ []) p poster g.specs, same)
        (rw ((eq_iff p poster).0 same) refl)
  | inr other ↦
      rw
        (
          value_at-update_at (λ o. or_empty o ++ fingerprint words spec ∷ []) p poster g.specs,
          other,
        )
        (sym (append-nil _))
]

-- After the events the graph has, behind the fingerprints from before, those of the poster's specs.
ingest-prints :
    (words : Words) (poster : String) (es : List Event) (g : Graph)
    → prints_of poster (ingest words es g)
      ≡ prints_of poster g ++ map (fingerprint words) (specs_by poster es)
unfolding ingest
ingest-prints words poster [] g = sym (append-nil _)
ingest-prints words poster (paid r ∷ es) g =
    ingest-prints words poster es (observe r g) ∙ rw (observe-prints poster r g) refl
ingest-prints words poster (funded wallet funder ∷ es) g =
    ingest-prints words poster es (observe_funding wallet funder g) ∙ unfold observe_funding in refl
ingest-prints words poster (posted p spec ∷ es) g =
    ingest-prints words poster es (observe_spec words p spec g)
    ∙ ap (λ xs. xs ++ map (fingerprint words) (specs_by poster es))
        (observe_spec-prints words poster p spec g)
    ∙ (elim (Bool-cases (p == poster)) [
      | inl same ↦ rw (same, append_assoc) refl
      | inr other ↦ rw (other, append-nil) refl
    ])

-- A list that holds one text only has at most one distinct element.
distinct_same : (x : String) (xs : List String) → All (λ s. s ≡ x) xs → distinct xs ≤ 1
unfolding distinct
distinct_same x [] same = omega arith
distinct_same x (y ∷ []) same = omega arith
distinct_same x (y ∷ z ∷ xs) (e, (f, same)) =
    let rest = distinct_same x (z ∷ xs) (f, same) in
    ground (arith, rest, (eq_iff z y).1 (f ∙ sym e))

length-map : {A B : Type 0} (f : A → B) (xs : List A) → length (map f xs) ≡ length xs
length-map f [] = refl
length-map f (x ∷ xs) = omega (arith, length-map f xs)

third_is_below :
    (x : Float) → le x (fin (pos 3002399751580331) 53) ≡ true → lt x quarantine_threshold ≡ true
unfolding le lt eq
third_is_below (fin z k) h = elim (Bool-cases (lt (fin z k) (fin (pos 3002399751580331) 53))) [
  | inl less ↦ ground (arith, less, pow_two_pos k)
  | inr other ↦ ground (arith, rw other at h, pow_two_pos k)
]
third_is_below inf h = cc
third_is_below neg_inf h = refl
third_is_below nan h = cc

prints_same :
    (words : Words) (pre post : List ℕ) (ends : Ends post) (specs : List String)
    → All (IsNumbered words pre post) specs
    → All
        (λ s. s ≡ words.hash_set (shingles words (around words pre post ends)))
        (map (fingerprint words) specs)
prints_same words pre post ends [] is = tt
prints_same words pre post ends (s ∷ specs) (one, is) =
    (fingerprint_numbered words pre post ends s one, prints_same words pre post ends specs is)

or_third : (a b c d : Bool) → c ≡ true → (((a || b) || c) || d) ≡ true
or_third true b c d e = refl
or_third false true c d e = refl
or_third false false c d e = rw e refl

module _ (ar : Arithmetic) (rounding : IsRounding ar) where
  -- A list of three or more fingerprints that are all the same is no diversity.
  same_prints-below :
      (x : String) (fps : List String)
      → All (λ s. s ≡ x) fps
      → 3 ≤ length fps
      → lt (diversity_of ar fps) quarantine_threshold ≡ true
  unfolding diversity_of
  same_prints-below x fps same many =
      let few = distinct_same x fps same in
      let third =
        rounding.ratio_le (distinct fps) (length fps) 3002399751580331 53 (omega (arith, many))
          (omega arith) (omega arith) (omega (arith, few, many)) in
      ground (arith, many, third_is_below (ar.ratio (distinct fps) (length fps)) third)

  -- A farm is caught. If a poster of whom the graph had no spec posts three specs or more, and they are
  -- the same text but for one word, which in each is a number, perhaps with `#` around it, and which has a
  -- space in front and white space or the end of the text behind it, then whatever else is observed
  -- before, between and after them, the poster is quarantined with every worker.
  pub farm_is_quarantined :
      (words : Words) (poster worker : String) (pre post : List ℕ) (events : List Event) (g : Graph)
      → value_at poster g.specs ≡ none
      → Ends post
      → All (IsNumbered words pre post) (specs_by poster events)
      → 3 ≤ length (specs_by poster events)
      → quarantined (assess ar poster worker (ingest words events g)) ≡ true
  farm_is_quarantined words poster worker pre post events g new ends farm many =
      one_weak_signal_quarantines ar rounding poster worker (ingest words events g)
      ∙ or_third (lt (pairing_entropy ar worker after) quarantine_threshold)
          (lt (cycle_conservation ar worker after) quarantine_threshold)
          (lt (spec_diversity ar poster after) quarantine_threshold)
          (poster == worker || share_ancestor poster worker after) weak
    where
      after : Graph
      after = ingest words events g

      prints : List String
      prints = map (fingerprint words) (specs_by poster events)

      behind : or_empty (value_at poster after.specs) ≡ prints
      behind = ingest-prints words poster events g ∙ rw new refl

      weak : lt (spec_diversity ar poster after) quarantine_threshold ≡ true
      weak =
          unfold spec_diversity in
          rw behind (
            same_prints-below (words.hash_set (shingles words (around words pre post ends))) prints
              (prints_same words pre post ends (specs_by poster events) farm)
              (rw (length-map (fingerprint words) (specs_by poster events)) many))
