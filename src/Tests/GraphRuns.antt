-- ===== src/Tests/GraphRuns.antt =====
-- Reports of the integrity graph.
use merita.Prelude.{
  ◌∷◌, List, String, ◌↔◌, Option, none, some, suc, ◌<◌, ℕ, ◌*◌, ◌^◌, ◌≤◌, Bool, true, false, ◌||◌,
  ◌≡◌, refl, sym, [], leb, inl, inr, Bool-cases, value_at, ◌&&◌, codes, if◌then◌else◌, eq_iff, ◌==◌,
  arith,
}
use native.Mathlib.Nat.{mul-le-mul_right, le_of_mul-le-mul_left}
use merita.Prelude.Int.{pos}
use merita.Prelude.Float.{fin, lt, le, eq, zero_point, one_point}
use merita.Integrity.{
  ancestors, Arithmetic, new_graph, quarantine_threshold, pairing_entropy, cycle_conservation,
  spec_diversity, share_ancestor, quarantined, assess, count_at, counter_at, adjacency,
}
use merita.Integrity.Quarantine.{IsRounding, one_weak_signal_quarantines}
use merita.Integrity.Fingerprint.{Words, digits, strip_hashes}
use merita.Integrity.Farm.{Event, paid, posted, funded, ingest, farm_is_quarantined}
use merita.Integrity.Books.{books_are_right}
use merita.Integrity.Scores.{IsNumber}
use merita.Integrity.Wash.{CameBack, IsExactAtOne, wash_loop_is_quarantined}
use merita.Models.{Receipt, sap_escrow, is_countable}
use merita.Integrity.Ancestors.{Has, funder_at, ancestors_iff}

-- an arithmetic that rounds quotients down to 0 or 1
abbrev coarse : Arithmetic
coarse = record {
  ratio = λ a b. if leb b a then one_point else zero_point;
  add = λ a b. a;
  sub = λ a b. if lt b a then one_point else zero_point;
  mul = λ a b. a;
  div = λ a b. a;
  log2 = λ a. a;
}

coarse-IsRounding : IsRounding coarse
coarse-IsRounding = record {
  ratio_nonneg = λ a b p. unfold le lt eq in nonneg (leb b a);
  ratio_le = λ a b z k p small deep h. below a b z k p h;
  sub_number = λ x h k. number (lt x one_point);
}
  where
    number : (c : Bool) → IsNumber (if c then one_point else zero_point)
    number true = tt
    number false = tt

    nonneg : (c : Bool) → le zero_point (if c then one_point else zero_point) ≡ true
    nonneg true = unfold le lt eq in refl
    nonneg false = unfold le lt eq in refl

    below :
        (a b z k : ℕ)
        → 0 < b
        → a * 2 ^ k ≤ z * b
        → le (if leb b a then one_point else zero_point) (fin (pos z) k) ≡ true
    below a b z k p h = elim (Bool-cases (leb b a)) [
      | inl e ↦
          let over : b * 2 ^ k ≤ a * 2 ^ k = mul-le-mul_right (2 ^ k) (ground (arith, e)) in
          let bound : 2 ^ k ≤ z = le_of_mul-le-mul_left {k = b} (grind (arith, over, h)) p in
          rw e (unfold le lt eq in ground (arith, bound))
      | inr e ↦ rw e (unfold le lt eq in ground arith)
    ]

one_weak_signal_quarantines_example : quarantined (assess coarse "0xa" "0xa" new_graph) ≡ (
    ((lt (pairing_entropy coarse "0xa" new_graph) quarantine_threshold
        || lt (cycle_conservation coarse "0xa" new_graph) quarantine_threshold)
      || lt (spec_diversity coarse "0xa" new_graph) quarantine_threshold)
    || ("0xa" == "0xa" || share_ancestor "0xa" "0xa" new_graph))
one_weak_signal_quarantines_example =
    one_weak_signal_quarantines coarse coarse-IsRounding "0xa" "0xa" new_graph

-- two wallets that fund each other
abbrev circle : List (String × String)
circle = ("0xa", "0xb") ∷ ("0xb", "0xa") ∷ []

ancestors_iff_example :
    Has "0xa" (ancestors "0xa" circle)
    ↔ ((n : ℕ) × (n < 4) × (funder_at (suc n) circle "0xa" ≡ some "0xa"))
ancestors_iff_example = ancestors_iff "0xa" "0xa" circle

-- code points as they are, and the ten digits
abbrev plain_words : Words
plain_words = record {
  is_digit = λ c. leb b'0' c && leb c b'9';
  lower = λ c. c ∷ [];
  hash_set = λ shingles. "0";
}

-- three specs with another number each, and a funder between them
abbrev numbered : List Event
numbered =
    posted "0xa" "job 1 now"
    ∷ funded "0xa" "0xf"
    ∷ posted "0xa" "job #22 now"
    ∷ posted "0xa" "job 3 now"
    ∷ []

farm_is_quarantined_example :
    quarantined (assess coarse "0xa" "0xb" (ingest plain_words numbered new_graph)) ≡ true
unfolding value_at digits strip_hashes
farm_is_quarantined_example =
    farm_is_quarantined coarse coarse-IsRounding plain_words "0xa" "0xb" (codes "job")
      (codes " now") numbered new_graph refl refl
      (
        (codes "1", ((refl, tt), refl), refl),
        (
          (codes "#22", ((refl, (refl, (refl, tt))), refl), refl),
          ((codes "3", ((refl, tt), refl), refl), tt),
        ),
      )
      (omega arith)

-- two payments that count, and one whose transaction never came
abbrev receipt : Option String → Receipt
receipt tx = record {
  rail = sap_escrow;
  leg = "reward";
  payer = "0xa";
  payee = "0xb";
  amount_atomic = pos 70;
  token = "SOL";
  tx = tx;
}

abbrev payments : List Event
payments = paid (receipt (some "t1")) ∷ paid (receipt none) ∷ paid (receipt (some "t2")) ∷ []

books_are_right_example :
    (count_at "0xa" (counter_at "0xb" (ingest plain_words payments new_graph).pairs) ≡ 2)
    × (count_at "0xb"
          (counter_at "0xa" (adjacency (ingest plain_words payments new_graph).edges []))
        ≡ 140)
unfolding is_countable
books_are_right_example = books_are_right "0xa" "0xb" plain_words payments

coarse-IsExactAtOne : IsExactAtOne coarse
coarse-IsExactAtOne = record {
  ratio_one =
      λ a b p h. let over : leb b a ≡ true = ground (arith, h) in rw over (unfold lt in refl);
  sub_one = unfold lt in refl;
}

-- money that goes round three agents, and a funder that is seen between
abbrev payment : String → String → Event
payment a b = paid (record (receipt (some "t")) { payer = a; payee = b })

abbrev loop : List Event
loop = payment "0xb" "0xc" ∷ payment "0xa" "0xb" ∷ funded "0xc" "0xf" ∷ payment "0xc" "0xa" ∷ []

loop_comes_back : (b : String) → CameBack "0xa" loop b
unfolding is_countable
loop_comes_back b = elim (Bool-cases ("0xb" == b)) [
  | inl same ↦ inr (
    "0xc",
    rw (sym ((eq_iff "0xb" b).0 same)) (omega arith),
    rw (sym ((eq_iff "0xb" b).0 same)) (omega arith),
  )
  | inr differ ↦ inl (rw differ (omega arith))
]

wash_loop_is_quarantined_example :
    quarantined (assess coarse "0xd" "0xa" (ingest plain_words loop new_graph)) ≡ true
unfolding is_countable
wash_loop_is_quarantined_example =
    wash_loop_is_quarantined plain_words "0xa" loop coarse coarse-IsRounding coarse-IsExactAtOne
      "0xd" "0xb" (omega arith) loop_comes_back
