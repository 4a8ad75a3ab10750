-- ===== src/Integrity.antt =====
-- brain/merita/integrity/graph.py: the graph of who paid whom for what, its four signals, and
-- `assess`. Amounts are those of countable receipts, so they are positive.
pub mod Fingerprint
mod Payments
pub mod Scores
pub mod Quarantine
mod Flags
pub mod Ancestors
pub mod Numbers
pub mod Farm
pub mod Books
pub mod Wash
pub use Payments.{Edge, Counter, Graph, new_graph, or_zero, or_empty}
unfoldable pub use Payments.{
  adjacency, ancestors, ancestors_from, bump, bump_in, count_at, counter_at, observe,
  observe_funding, observe_spec, returned_to, share_ancestor, three_cycles, total,
}
use merita.Prelude.{
  ℕ, ◌+◌, String, Bool, true, false, not, ◌||◌, Option, none, some, List, [], ◌∷◌, ◌++◌, ◌==◌,
  if◌then◌else◌, length, min, eqb, ltb, any, value_at, update_at,
}
use merita.Prelude.Int.{pos, pos_part}
use merita.Prelude.Float
use merita.Prelude.Float.{Float, fin, zero_point, one_point}
use merita.Models.{Receipt, is_countable}
use merita.Integrity.Fingerprint.{Words, fingerprint}

-- 0.35, 0.60, 0.5 and 0.7, as the binary64 values that Python reads
abbrev pub quarantine_threshold : Float
quarantine_threshold = fin (pos 3152519739159347) 53

abbrev pub warn_threshold : Float
warn_threshold = fin (pos 5404319552844595) 53

abbrev pub half : Float
half = fin (pos 1) 1

abbrev pub seven_tenths : Float
seven_tenths = fin (pos 3152519739159347) 52

-- The float operations, which round: the quotient of two integers, and the rest.
pub record Arithmetic : Type 0 where
  pub ratio : ℕ → ℕ → Float
  pub add : Float → Float → Float
  pub sub : Float → Float → Float
  pub mul : Float → Float → Float
  pub div : Float → Float → Float
  pub log2 : Float → Float

-- `len(set(fps))`
unfoldable pub distinct : List String → ℕ
distinct [] = 0
distinct (x ∷ xs) = (if any (λ s. s == x) xs then 0 else 1) + distinct xs

-- `min(a, b)`
unfoldable pub lesser : Float → Float → Float
lesser a b = if Float.lt b a then b else a

pub record Signals : Type 0 where
  pub pairing_entropy : Float
  pub cycle_conservation : Float
  pub spec_diversity : Float
  pub funding_independence : Float

pub record Report : Type 0 where
  pub score : Float
  pub signals : Signals
  pub flags : List String

unfoldable pub quarantined : Report → Bool
quarantined r = Float.lt r.score quarantine_threshold

unfoldable pub leaderboard_eligible : Report → Bool
leaderboard_eligible r = Float.le warn_threshold r.score

-- `min(signals.values())`
unfoldable pub minimum : Signals → Float
unfolding lesser
minimum s =
    lesser (lesser (lesser s.pairing_entropy s.cycle_conservation) s.spec_diversity)
      s.funding_independence

abbrev pub flag_if : Bool → String → List String
flag_if b text = if b then text ∷ [] else []

unfoldable pub flags_of : Signals → List String
flags_of s =
    flag_if (Float.lt s.pairing_entropy half)
      "worker serves too few distinct posters (repeat-pairing)"
    ++ flag_if (Float.lt s.cycle_conservation seven_tenths)
        "value is cycling back to its origin (wash pattern)"
    ++ flag_if (Float.lt s.spec_diversity half)
        "poster is emitting near-duplicate specs (spam pattern)"
    ++ flag_if (Float.eq s.funding_independence zero_point)
        "poster and worker wallets share a funding ancestor (same operator)"

-- the report on the signals
unfoldable pub report_of : Signals → Report
unfolding minimum flags_of
report_of s = record { score = minimum s; signals = s; flags = flags_of s }

unfoldable pub funding_independence : String → String → Graph → Float
unfolding share_ancestor
funding_independence a b g = if share_ancestor a b g then zero_point else one_point

module _ (ar : Arithmetic) where
  -- `sum((c / total) * log2(c / total) …)`, on top of what was added before
  unfoldable pub add_shares : ℕ → Float → Counter → Float
  add_shares total acc [] = acc
  add_shares total acc ((k, c) ∷ rest) =
      add_shares total
        (if eqb c 0
          then acc
          else ar.add acc (ar.mul (ar.ratio c total) (ar.log2 (ar.ratio c total))))
        rest

  -- `x or 1.0`
  abbrev or_one : Float → Float
  or_one x = if Float.eq x zero_point then one_point else x

  unfoldable pub entropy_of : Counter → Float
  unfolding lesser total add_shares
  entropy_of counts =
      if ltb (total counts) 3
      then one_point
      else lesser one_point (
          ar.div (ar.sub zero_point (add_shares (total counts) zero_point counts))
            (or_one (ar.log2 (fin (pos (min (total counts) 4)) 0))))

  -- a worker that nobody has paid has no counter
  unfoldable pub pairing_entropy : String → Graph → Float
  unfolding entropy_of counter_at
  pairing_entropy worker g = entropy_of (counter_at worker g.pairs)

  unfoldable pub recycled : List (String × Counter) → String → Counter → Float
  unfolding lesser total returned_to
  recycled adj worker out =
      if eqb (total out) 0
      then one_point
      else ar.sub one_point (lesser one_point (ar.ratio (returned_to adj worker out) (total out)))

  unfoldable pub cycle_conservation : String → Graph → Float
  unfolding recycled adjacency counter_at
  cycle_conservation worker g =
      let adj = adjacency g.edges [] in recycled adj worker (counter_at worker adj)

  unfoldable pub diversity_of : List String → Float
  unfolding distinct
  diversity_of fps = if ltb (length fps) 3 then one_point else ar.ratio (distinct fps) (length fps)

  unfoldable pub spec_diversity : String → Graph → Float
  unfolding diversity_of
  spec_diversity poster g = diversity_of (or_empty (value_at poster g.specs))

  unfoldable pub signals_of : String → String → Graph → Signals
  unfolding pairing_entropy cycle_conservation spec_diversity funding_independence
  signals_of poster worker g = record {
    pairing_entropy = pairing_entropy worker g;
    cycle_conservation = cycle_conservation worker g;
    spec_diversity = spec_diversity poster g;
    funding_independence =
        if poster == worker then zero_point else funding_independence poster worker g;
  }

  unfoldable pub assess : String → String → Graph → Report
  unfolding signals_of report_of
  assess poster worker g = report_of (signals_of poster worker g)
