-- ===== src/Integrity/Books.antt =====
-- What the graph of brain/merita/integrity/graph.py counts, against the receipts that it was shown.
use merita.Prelude.{
  ℕ, ◌+◌, String, Bool, ◌&&◌, ◌≡◌, refl, inl, inr, List, [], ◌∷◌, ◌++◌, arith, Bool-cases,
  if◌then◌else◌, ◌==◌, eq_iff, value_at, value_at-update_at,
}
use merita.Prelude.Int.{pos_part}
use merita.Models.{Receipt, is_countable}
use merita.Integrity.{
  Graph, Edge, Counter, new_graph, observe, observe_spec, observe_funding, bump, bump_in, count_at,
  counter_at, adjacency, or_zero, or_empty,
}
use merita.Integrity.Fingerprint.{Words}
use merita.Integrity.Farm.{Event, paid, funded, posted, ingest}

-- a weight, where the test holds
abbrev pub given : Bool → ℕ → ℕ
given b n = if b then n else 0

count_at-bump :
    (k k' : String) (n : ℕ) (d : Counter)
    → count_at k' (bump k n d) ≡ count_at k' d + given (k == k') n
unfolding count_at bump
count_at-bump k k' n d = elim (Bool-cases (k == k')) [
  | inl same ↦
      rw (value_at-update_at (λ o. or_zero o + n) k k' d, same) (rw ((eq_iff k k').0 same) refl)
  | inr other ↦ rw (value_at-update_at (λ o. or_zero o + n) k k' d, other) (omega arith)
]

-- One payment is added in one place.
count-bump_in :
    (j k j' k' : String) (n : ℕ) (d : List (String × Counter))
    → count_at k' (counter_at j' (bump_in j k n d))
      ≡ count_at k' (counter_at j' d) + given (j == j' && k == k') n
unfolding counter_at bump_in
count-bump_in j k j' k' n d = elim (Bool-cases (j == j')) [
  | inl same ↦
      rw (value_at-update_at (λ o. bump k n (or_empty o)) j j' d, same)
        (rw ((eq_iff j j').0 same) (count_at-bump k k' n (or_empty (value_at j' d))))
  | inr other ↦ rw (value_at-update_at (λ o. bump k n (or_empty o)) j j' d, other) (omega arith)
]

-- Whether the receipt counts, and is for a payment from the one agent to the other.
abbrev pub pays : String → String → Receipt → Bool
pays payer payee r = is_countable r && (r.payer == payer && r.payee == payee)

-- how often, and how much, the one agent paid the other, by the receipts that count
abbrev pub times_paid : String → String → List Event → ℕ
times_paid payer payee [] = 0
times_paid payer payee (paid r ∷ es) = given (pays payer payee r) 1 + times_paid payer payee es
times_paid payer payee (funded wallet funder ∷ es) = times_paid payer payee es
times_paid payer payee (posted poster spec ∷ es) = times_paid payer payee es

abbrev pub sum_paid : String → String → List Event → ℕ
sum_paid payer payee [] = 0
sum_paid payer payee (paid r ∷ es) =
    given (pays payer payee r) (pos_part r.amount_atomic) + sum_paid payer payee es
sum_paid payer payee (funded wallet funder ∷ es) = sum_paid payer payee es
sum_paid payer payee (posted poster spec ∷ es) = sum_paid payer payee es

adjacency-append :
    (xs : List Edge) (e : Edge) (d : List (String × Counter))
    → adjacency (xs ++ e ∷ []) d ≡ bump_in e.payer e.payee e.amount (adjacency xs d)
unfolding adjacency
adjacency-append [] e d = refl
adjacency-append (x ∷ xs) e d = adjacency-append xs e (bump_in x.payer x.payee x.amount d)

module _ (payer payee : String) where
  -- what the graph says of the two agents
  abbrev times : Graph → ℕ
  times g = count_at payer (counter_at payee g.pairs)

  abbrev sum : Graph → ℕ
  sum g = count_at payee (counter_at payer (adjacency g.edges []))

  observe-times :
      (r : Receipt) (g : Graph) → times (observe r g) ≡ times g + given (pays payer payee r) 1
  unfolding observe
  observe-times r g = elim (Bool-cases (is_countable r)) [
    | inl counts ↦ rw (counts, count-bump_in r.payee r.payer payee payer 1 g.pairs) (ground arith)
    | inr other ↦ rw other (omega arith)
  ]

  observe-sum :
      (r : Receipt) (g : Graph)
      → sum (observe r g) ≡ sum g + given (pays payer payee r) (pos_part r.amount_atomic)
  unfolding observe
  observe-sum r g = elim (Bool-cases (is_countable r)) [
    | inl counts ↦
        let e : Edge = record {
          payer = r.payer;
          payee = r.payee;
          amount = pos_part r.amount_atomic;
        } in
        rw
          (
            counts,
            adjacency-append g.edges e [],
            count-bump_in r.payer r.payee payer payee (pos_part r.amount_atomic)
                (adjacency g.edges []),
          )
          refl
    | inr other ↦ rw other (omega arith)
  ]

  ingest-counts :
      (words : Words) (es : List Event) (g : Graph)
      → (times (ingest words es g) ≡ times g + times_paid payer payee es)
        × (sum (ingest words es g) ≡ sum g + sum_paid payer payee es)
  unfolding ingest observe_spec observe_funding
  ingest-counts words [] g = (omega arith, omega arith)
  ingest-counts words (paid r ∷ es) g =
      let (t, s) = ingest-counts words es (observe r g) in
      (omega (arith, t, observe-times r g), omega (arith, s, observe-sum r g))
  ingest-counts words (funded wallet funder ∷ es) g =
      ingest-counts words es (observe_funding wallet funder g)
  ingest-counts words (posted poster spec ∷ es) g =
      ingest-counts words es (observe_spec words poster spec g)

  -- The graph counts the payments and nothing else. Whatever a new graph is shown, payments, funders
  -- and specs in any order: the counter behind the pairing entropy has for two agents the number of the
  -- countable receipts from the one to the other, and the digraph behind the cycle signal their sum.
  pub books_are_right :
      (words : Words) (es : List Event)
      → (count_at payer (counter_at payee (ingest words es new_graph).pairs)
          ≡ times_paid payer payee es)
        × (count_at payee (counter_at payer (adjacency (ingest words es new_graph).edges []))
            ≡ sum_paid payer payee es)
  unfolding adjacency counter_at count_at value_at
  books_are_right words es =
      let (t, s) = ingest-counts words es new_graph in (omega (arith, t), omega (arith, s))
