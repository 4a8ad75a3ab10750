-- ===== src/Integrity/Flags.antt =====
-- Why `assess` in brain/merita/integrity/graph.py quarantines: its flags.
use merita.Prelude.{
  String, Bool, true, false, ◌||◌, ◌≡◌, ◌≢◌, refl, inl, inr, [], arith, Bool-cases, if◌then◌else◌,
  ◌==◌,
}
use merita.Prelude.Float.{Float, lt, eq, zero_point, one_point}
use merita.Integrity.{
  Graph, Signals, Arithmetic, quarantine_threshold, half, seven_tenths, lesser, minimum, flags_of,
  quarantined, share_ancestor, funding_independence, signals_of, assess,
}
use merita.Integrity.Scores.{below_half, below_seven_tenths}

-- `min` of the signals is one of them
lesser_below_one :
    (x y : Float)
    → lt (lesser x y) quarantine_threshold ≡ true
    → (lt x quarantine_threshold || lt y quarantine_threshold) ≡ true
unfolding lesser
lesser_below_one x y h = elim (Bool-cases (lt y x)) [
  | inl e ↦ let k = rw e at h in ground (arith, k)
  | inr e ↦ let k = rw e at h in ground (arith, k)
]

funding_flag :
    (same shared : Bool)
    → lt
        (if same then zero_point else if shared then zero_point else one_point)
        quarantine_threshold
      ≡ true
    → eq (if same then zero_point else if shared then zero_point else one_point) zero_point ≡ true
unfolding lt eq
funding_flag true shared h = refl
funding_flag false true h = refl
funding_flag false false h = cc

flags_of-nonempty :
    (s : Signals)
    → (lt s.pairing_entropy half
        || lt s.cycle_conservation seven_tenths
        || lt s.spec_diversity half
        || eq s.funding_independence zero_point)
      ≡ true
    → flags_of s ≢ []
unfolding flags_of
flags_of-nonempty s h none_given = ground (arith, h, none_given)

signals-explain :
    (s : Signals) (same shared : Bool)
    → s.funding_independence
      ≡ (if same then zero_point else if shared then zero_point else one_point)
    → lt (minimum s) quarantine_threshold ≡ true
    → flags_of s ≢ []
unfolding minimum
signals-explain s same shared e h =
    let h3 =
      lesser_below_one (lesser (lesser s.pairing_entropy s.cycle_conservation) s.spec_diversity)
        s.funding_independence h in
    let h2 = lesser_below_one (lesser s.pairing_entropy s.cycle_conservation) s.spec_diversity in
    let h1 = lesser_below_one s.pairing_entropy s.cycle_conservation in
    let f : lt s.funding_independence quarantine_threshold ≡ true
        → eq s.funding_independence zero_point ≡ true =
      rw e (funding_flag same shared) in
    flags_of-nonempty s (
      grind (
        arith,
        h3,
        h2,
        h1,
        f,
        below_half s.pairing_entropy,
        below_half s.spec_diversity,
        below_seven_tenths s.cycle_conservation,
      ))

-- Whoever is quarantined is told why: the report has a flag. It holds of every arithmetic, also where a
-- signal is no number.
quarantine_is_explained :
    (ar : Arithmetic) (poster worker : String) (g : Graph)
    → quarantined (assess ar poster worker g) ≡ true
    → (assess ar poster worker g).flags ≢ []
unfolding quarantined assess signals_of funding_independence
quarantine_is_explained ar poster worker g h =
    signals-explain (signals_of ar poster worker g) (poster == worker)
      (share_ancestor poster worker g) refl h
