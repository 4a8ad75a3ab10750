-- ===== src/Integrity/Wash.antt =====
-- The cycle signal of brain/merita/integrity/graph.py, against money that comes back.
use merita.Prelude.{
  ℕ, ◌+◌, ◌<◌, ◌≤◌, String, Bool, true, false, ◌||◌, ◌⊎◌, ◌≡◌, refl, ◌∙◌, inl, inr, Option, none,
  some, List, [], ◌∷◌, All, arith, Bool-cases, ◌==◌, eq_iff, eq_refl, min, eqb, value_at, update_at,
  value_at-update_at,
}
use merita.Prelude.Float.{lt, zero_point, one_point}
use merita.Integrity.{
  Graph, Edge, Counter, Arithmetic, new_graph, quarantine_threshold, lesser, quarantined, assess,
  recycled, cycle_conservation, total, returned_to, three_cycles, adjacency, bump, bump_in,
  count_at, counter_at, or_zero, or_empty,
}
use merita.Integrity.Fingerprint.{Words}
use merita.Integrity.Quarantine.{IsRounding, one_weak_signal_quarantines}
use merita.Integrity.Farm.{Event, ingest}
use merita.Integrity.Books.{sum_paid, books_are_right}

-- a dictionary has a key once
abbrev IsDict : {A : Type 0} → List (String × A) → Type 0
IsDict [] = Unit
IsDict ((k, a) ∷ rest) = (value_at k rest ≡ none) × IsDict rest

module _ {A : Type 0} (f : Option A → A) (k : String) where
  update_at-IsDict : (d : List (String × A)) → IsDict d → IsDict (update_at f k d)
  unfolding update_at value_at
  update_at-IsDict [] is = (refl, tt)
  update_at-IsDict ((j, a) ∷ rest) (fresh, is) = elim (Bool-cases (j == k)) [
    | inl same ↦ rw same (fresh, is)
    | inr differ ↦ rw differ (
      rw (value_at-update_at f k j rest) (ground (arith, fresh, differ, eq_iff k j, eq_iff j k)),
      update_at-IsDict rest is,
    )
  ]

  update_at-All :
      (P : A → Type 0)
      → P (f none)
      → ((a : A) → P a → P (f (some a)))
      → (d : List (String × A)) → All (λ e. P e.1) d
      → All (λ e. P e.1) (update_at f k d)
  unfolding update_at
  update_at-All P new old [] all = (new, tt)
  update_at-All P new old ((j, a) ∷ rest) (one, all) = elim (Bool-cases (j == k)) [
    | inl same ↦ rw same (old a one, all)
    | inr differ ↦ rw differ (one, update_at-All P new old rest all)
  ]

adjacency-IsDict :
    (es : List Edge) (d : List (String × Counter))
    → All (λ e. IsDict e.1) d
    → All (λ e. IsDict e.1) (adjacency es d)
unfolding adjacency bump_in bump
adjacency-IsDict [] d all = all
adjacency-IsDict (e ∷ es) d all =
    let add : Option ℕ → ℕ = λ o. or_zero o + e.amount in
    adjacency-IsDict es (bump_in e.payer e.payee e.amount d) (
      update_at-All (λ o. bump e.payee e.amount (or_empty o)) e.payer (λ c. IsDict c)
        (update_at-IsDict add e.payee [] tt) (λ c is. update_at-IsDict add e.payee c is) d all)

counter_at-IsDict :
    (j : String) (d : List (String × Counter)) → All (λ e. IsDict e.1) d → IsDict (counter_at j d)
unfolding counter_at value_at
counter_at-IsDict j [] all = tt
counter_at-IsDict j ((k, c) ∷ rest) (one, all) = elim (Bool-cases (k == j)) [
  | inl same ↦ rw same one
  | inr differ ↦ rw differ (counter_at-IsDict j rest all)
]

count_at-total : (k : String) (d : Counter) → count_at k d ≤ total d
unfolding count_at value_at total
count_at-total k [] = omega arith
count_at-total k ((j, n) ∷ rest) = elim (Bool-cases (j == k)) [
  | inl same ↦ rw same (omega arith)
  | inr differ ↦ rw differ (omega (arith, count_at-total k rest))
]

count_at-here :
    (b c : String) (n : ℕ) (rest : Counter) → (b == c) ≡ true → count_at c ((b, n) ∷ rest) ≡ n
unfolding count_at value_at
count_at-here b c n rest e = rw e refl

count_at-there :
    (b c : String) (n : ℕ) (rest : Counter)
    → (b == c) ≡ false
    → count_at c ((b, n) ∷ rest) ≡ count_at c rest
unfolding count_at value_at
count_at-there b c n rest e = rw e refl

count_at-none : (b : String) (d : Counter) → value_at b d ≡ none → count_at b d ≡ 0
unfolding count_at
count_at-none b d e = rw e refl

module _ (adj : List (String × Counter)) (worker : String) where
  -- what comes back through the one agent
  abbrev back : String → ℕ
  back b = count_at worker (counter_at b adj) + three_cycles adj worker (counter_at b adj)

  three_cycles_include :
      (c : String) (d : Counter)
      → min (count_at c d) (count_at worker (counter_at c adj)) ≤ three_cycles adj worker d
  unfolding three_cycles
  three_cycles_include c [] = rw (count_at-none c [] (unfold value_at in refl)) (omega arith)
  three_cycles_include c ((j, n) ∷ rest) = elim (Bool-cases (j == c)) [
    | inl same ↦ rw (count_at-here j c n rest same, (eq_iff j c).0 same) (omega arith)
    | inr differ ↦
        rw (count_at-there j c n rest differ) (omega (arith, three_cycles_include c rest))
  ]

  total-returned_to :
      (d : Counter)
      → IsDict d
      → ((b : String) → count_at b d ≤ back b)
      → total d ≤ returned_to adj worker d
  unfolding total returned_to
  total-returned_to [] is each = omega arith
  total-returned_to ((b, n) ∷ rest) (fresh, is) each =
      omega (arith, each b, count_at-here b b n rest (eq_refl b), total-returned_to rest is later)
    where
      later : (c : String) → count_at c rest ≤ back c
      later c = elim (Bool-cases (b == c)) [
        | inl same ↦ omega (arith, count_at-none c rest (rw ((eq_iff b c).0 same) at fresh))
        | inr differ ↦ omega (arith, each c, count_at-there b c n rest differ)
      ]

-- All that the worker paid to the agent came back, by the receipts that count: from the agent itself,
-- or from a third one, whom the agent paid as much.
abbrev pub CameBack : String → List Event → String → Type 0
CameBack worker es b =
    (sum_paid worker b es ≤ sum_paid b worker es)
    ⊎ ((c : String) × (sum_paid worker b es ≤ sum_paid b c es)
        × (sum_paid worker b es ≤ sum_paid c worker es))

-- What the code relies on of binary64, besides: a quotient of an integer by one that is no greater is
-- no less than 1, and 1 less 1 is 0.
pub record IsExactAtOne (ar : Arithmetic) : Type 0 where
  pub ratio_one : (a b : ℕ) → 0 < b → b ≤ a → lt (ar.ratio a b) one_point ≡ false
  pub sub_one : ar.sub one_point one_point ≡ zero_point

or_second : (a b c d : Bool) → b ≡ true → (((a || b) || c) || d) ≡ true
or_second true b c d e = refl
or_second false b c d e = rw e refl

module _ (words : Words) (worker : String) (es : List Event) where
  abbrev after : Graph
  after = ingest words es new_graph

  abbrev adj : List (String × Counter)
  adj = adjacency after.edges []

  edge : (a b : String) → count_at b (counter_at a adj) ≡ sum_paid a b es
  edge a b = (books_are_right a b words es).1

  edge_comes_back :
      (b : String) → CameBack worker es b → count_at b (counter_at worker adj) ≤ back adj worker b
  edge_comes_back b (inl direct) = omega (arith, direct, edge worker b, edge b worker)
  edge_comes_back b (inr (c, on, home)) = omega (
    arith,
    on,
    home,
    edge worker b,
    edge b c,
    edge c worker,
    three_cycles_include adj worker c (counter_at b adj),
  )

  all_comes_back :
      ((b : String) → CameBack worker es b)
      → total (counter_at worker adj) ≤ returned_to adj worker (counter_at worker adj)
  all_comes_back each =
      total-returned_to adj worker (counter_at worker adj)
        (counter_at-IsDict worker adj (adjacency-IsDict after.edges [] tt))
        (λ b. edge_comes_back b (each b))

  module _ (ar : Arithmetic) (rounding : IsRounding ar) (exact : IsExactAtOne ar) where
    recycled-all :
        (out : Counter)
        → 0 < total out
        → total out ≤ returned_to adj worker out
        → recycled ar adj worker out ≡ zero_point
    unfolding recycled lesser
    recycled-all out some_paid all =
        let open_handed : eqb (total out) 0 ≡ false = ground (arith, some_paid) in
        rw (open_handed, exact.ratio_one (returned_to adj worker out) (total out) some_paid all)
          exact.sub_one

    -- A wash loop is caught. If a worker paid someone, and all that it paid to each agent came back to
    -- it, from that agent or over a third one, by the receipts that count, then whatever else the graph
    -- was shown, and in whatever order, the worker is quarantined with every poster.
    pub wash_loop_is_quarantined :
        (poster paid_one : String)
        → 0 < sum_paid worker paid_one es
        → ((b : String) → CameBack worker es b)
        → quarantined (assess ar poster worker (ingest words es new_graph)) ≡ true
    unfolding cycle_conservation
    wash_loop_is_quarantined poster paid_one some_paid each =
        let positive : 0 < total (counter_at worker adj) = omega (
          arith,
          some_paid,
          edge worker paid_one,
          count_at-total paid_one (counter_at worker adj),
        ) in
        let low : lt (cycle_conservation ar worker after) quarantine_threshold ≡ true =
          rw (recycled-all (counter_at worker adj) positive (all_comes_back each))
            (unfold lt in refl) in
        one_weak_signal_quarantines ar rounding poster worker after ∙ or_second _ _ _ _ low
