-- ===== src/Integrity/Quarantine.antt =====
-- When `assess` in brain/merita/integrity/graph.py quarantines a pair of agents.
use merita.Prelude.{
  ℕ, ◌*◌, ◌^◌, ◌<◌, ◌≤◌, String, Bool, true, false, ◌||◌, ◌≡◌, refl, ap, ◌∙◌, inl, inr, List, [],
  arith, Bool-cases, if◌then◌else◌, ◌==◌, length, ltb, eqb, value_at,
}
use merita.Prelude.Int.{pos}
use merita.Prelude.Float.{Float, fin, inf, neg_inf, nan, lt, le, eq, zero_point, one_point}
use merita.Integrity.{
  Graph, Signals, Arithmetic, Counter, quarantine_threshold, lesser, minimum, quarantined,
  entropy_of, pairing_entropy, recycled, cycle_conservation, diversity_of, spec_diversity,
  share_ancestor, funding_independence, signals_of, assess, total, returned_to, adjacency,
  counter_at, or_empty, distinct,
}
use merita.Integrity.Scores.{IsNumber, lesser-IsNumber, lesser_below}

-- What the code relies on of binary64: a quotient of two integers is correctly rounded, so it is no
-- less than 0, and no more than a representable bound of the exact quotient; and 1 less a number
-- between 0 and 1 is a number.
pub record IsRounding (ar : Arithmetic) : Type 0 where
  pub ratio_nonneg : (a b : ℕ) → 0 < b → le zero_point (ar.ratio a b) ≡ true
  pub ratio_le :
      (a b z k : ℕ)
      → 0 < b
      → z < 2 ^ 53
      → k ≤ 1074
      → a * 2 ^ k ≤ z * b
      → le (ar.ratio a b) (fin (pos z) k) ≡ true
  pub sub_number :
      (x : Float) → le zero_point x ≡ true → le x one_point ≡ true → IsNumber (ar.sub one_point x)

lt-IsNumber : (x y : Float) → lt x y ≡ true → IsNumber x
unfolding lt
lt-IsNumber (fin z k) y h = tt
lt-IsNumber inf y h = tt
lt-IsNumber neg_inf y h = tt
lt-IsNumber nan y h = cc

le-IsNumber : (x y : Float) → le x y ≡ true → IsNumber y
unfolding le lt eq
le-IsNumber (fin z k) nan h = cc
le-IsNumber inf nan h = cc
le-IsNumber neg_inf nan h = cc
le-IsNumber nan nan h = cc
le-IsNumber x (fin w j) h = tt
le-IsNumber x inf h = tt
le-IsNumber x neg_inf h = tt

-- `min(1.0, x)` is a number, also where `x` is none
lesser_one-IsNumber : (x : Float) → IsNumber (lesser one_point x)
unfolding lesser
lesser_one-IsNumber x = elim (Bool-cases (lt x one_point)) [
  | inl e ↦ rw e (lt-IsNumber x one_point e)
  | inr e ↦ rw e tt
]

minimum_below :
    (s : Signals)
    → IsNumber s.pairing_entropy
    → IsNumber s.cycle_conservation
    → IsNumber s.spec_diversity
    → IsNumber s.funding_independence
    → lt (minimum s) quarantine_threshold ≡ (
        ((lt s.pairing_entropy quarantine_threshold || lt s.cycle_conservation quarantine_threshold)
          || lt s.spec_diversity quarantine_threshold)
        || lt s.funding_independence quarantine_threshold)
unfolding minimum
minimum_below s n1 n2 n3 n4 =
    let m1 = lesser-IsNumber s.pairing_entropy s.cycle_conservation n1 n2 in
    let m2 =
      lesser-IsNumber (lesser s.pairing_entropy s.cycle_conservation) s.spec_diversity m1 n3 in
    rw
      (
        lesser_below (lesser (lesser s.pairing_entropy s.cycle_conservation) s.spec_diversity)
            s.funding_independence m2 n4,
        lesser_below (lesser s.pairing_entropy s.cycle_conservation) s.spec_diversity m1 n3,
        lesser_below s.pairing_entropy s.cycle_conservation n1 n2,
      )
      refl

module _ (ar : Arithmetic) (rounding : IsRounding ar) where
  entropy_of-IsNumber : (counts : Counter) → IsNumber (entropy_of ar counts)
  unfolding entropy_of
  entropy_of-IsNumber counts = elim (Bool-cases (ltb (total counts) 3)) [
    | inl e ↦ rw e tt
    | inr e ↦ rw e (lesser_one-IsNumber _)
  ]

  lesser_one_unit :
      (x : Float)
      → le zero_point x ≡ true
      → (le zero_point (lesser one_point x) ≡ true) × (le (lesser one_point x) one_point ≡ true)
  unfolding lesser
  lesser_one_unit x h = elim (Bool-cases (lt x one_point)) [
    | inl e ↦ rw e (h, unfold le in ground (arith, e))
    | inr e ↦ rw e (unfold le lt eq in (refl, refl))
  ]

  recycled-IsNumber :
      (adj : List (String × Counter)) (worker : String) (out : Counter)
      → IsNumber (recycled ar adj worker out)
  unfolding recycled
  recycled-IsNumber adj worker out = elim (Bool-cases (eqb (total out) 0)) [
    | inl e ↦ rw e tt
    | inr e ↦
        let unit =
          lesser_one_unit (ar.ratio (returned_to adj worker out) (total out))
            (rounding.ratio_nonneg (returned_to adj worker out) (total out) (ground (arith, e))) in
        rw e (rounding.sub_number _ unit.0 unit.1)
  ]

  diversity_of-IsNumber : (fps : List String) → IsNumber (diversity_of ar fps)
  unfolding diversity_of
  diversity_of-IsNumber fps = elim (Bool-cases (ltb (length fps) 3)) [
    | inl e ↦ rw e tt
    | inr e ↦ rw e (
        le-IsNumber zero_point _
          (rounding.ratio_nonneg (distinct fps) (length fps) (ground (arith, e))))
  ]

  abbrev funding_signal : Bool → Bool → Float
  funding_signal same shared = if same then zero_point else if shared then zero_point else one_point

  funding_signal_below :
      (same shared : Bool)
      → IsNumber (funding_signal same shared)
        × (lt (funding_signal same shared) quarantine_threshold ≡ (same || shared))
  unfolding lt
  funding_signal_below true shared = (tt, refl)
  funding_signal_below false true = (tt, refl)
  funding_signal_below false false = (tt, refl)

  module _ (poster worker : String) (g : Graph) where
    assess-below :
        quarantined (assess ar poster worker g)
        ≡ lt (minimum (signals_of ar poster worker g)) quarantine_threshold
    unfolding quarantined assess
    assess-below = refl

    signals_of-below : lt (minimum (signals_of ar poster worker g)) quarantine_threshold ≡ (
        ((lt (pairing_entropy ar worker g) quarantine_threshold
            || lt (cycle_conservation ar worker g) quarantine_threshold)
          || lt (spec_diversity ar poster g) quarantine_threshold)
        || (poster == worker || share_ancestor poster worker g))
    unfolding signals_of pairing_entropy cycle_conservation spec_diversity funding_independence
    signals_of-below =
        let f = funding_signal_below (poster == worker) (share_ancestor poster worker g) in
        minimum_below (signals_of ar poster worker g)
          (entropy_of-IsNumber (counter_at worker g.pairs))
          (recycled-IsNumber (adjacency g.edges []) worker
            (counter_at worker (adjacency g.edges [])))
          (diversity_of-IsNumber (or_empty (value_at poster g.specs))) f.0
        ∙ ap
            (λ b.
              ((lt (pairing_entropy ar worker g) quarantine_threshold
                  || lt (cycle_conservation ar worker g) quarantine_threshold)
                || lt (spec_diversity ar poster g) quarantine_threshold)
              || b)
            f.1

  -- A pair is quarantined exactly if one of these holds: the worker's pairing entropy is below the
  -- threshold; so is its cycle conservation; so is the poster's spec diversity; they are the same
  -- agent; they share a funding ancestor. No other signal, however good, makes up for one of them.
  pub one_weak_signal_quarantines :
      (poster worker : String) (g : Graph)
      → quarantined (assess ar poster worker g) ≡ (
          ((lt (pairing_entropy ar worker g) quarantine_threshold
              || lt (cycle_conservation ar worker g) quarantine_threshold)
            || lt (spec_diversity ar poster g) quarantine_threshold)
          || (poster == worker || share_ancestor poster worker g))
  one_weak_signal_quarantines poster worker g =
      assess-below poster worker g ∙ signals_of-below poster worker g
