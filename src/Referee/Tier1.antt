-- ===== src/Referee/Tier1.antt =====
-- brain/merita/referee/tier1.py: `verify`, the whole deterministic referee.
use merita.Prelude.{String, Bool, true, false, not, ◌||◌, [], ◌∷◌, if◌then◌else◌, concat}
use merita.Prelude.Float.{Float, zero_point, one_point}
use merita.Json.{or_else, str}
use merita.Runtime.{Runtime}
use merita.Commitment.{verify_reveal}
use merita.Models.{Verdict, deterministic}
use merita.Referee.Sandbox.{Proc, Run, Outcome, value, sandbox_unavailable, exception, run_once}

abbrev pub verdict : Bool → Float → Bool → String → Verdict
verdict passed confidence reveal_valid reason = record {
  passed = passed;
  tier_used = deterministic;
  confidence = confidence;
  reason = reason;
  reveal_valid = reveal_valid;
}

-- `bool(a != b)` on two Booleans
abbrev pub differ : Bool → Bool → Bool
differ true b = not b
differ false b = b

-- Python's `Outcome` threads: what raises ends the call.
infixl 5 ◌>>=◌
abbrev pub ◌>>=◌ {ℓ κ} : {A : Type ℓ} {B : Type κ} → Outcome A → (A → Outcome B) → Outcome B
value a >>= f = f a
sandbox_unavailable >>= f = sandbox_unavailable
exception e >>= f = exception e

module _ (rt : Runtime) where
  -- the verdict on two runs
  unfoldable pub compare_runs : Run → Run → Verdict
  compare_runs a b =
      if not a.ok || not b.ok
      then verdict false zero_point true (
          concat (
            "acceptance test failed to execute: "
            ∷ rt.str_of (or_else a.err b.err)
            ∷ ". Escalating to Tier 2."
            ∷ []))
      else if differ a.passed b.passed
      then verdict false zero_point true
          "nondeterministic acceptance test (two runs disagreed). Escalating to Tier 2."
      else verdict a.passed one_point true (
          if a.passed
          then "deterministic acceptance test passed"
          else concat (
              "deterministic acceptance test failed: "
              ∷ rt.str_of (or_else a.err (str "check() returned False"))
              ∷ []))

  -- `first` and `second` are what the two child processes do
  unfoldable pub verify : String → String → String → Proc → Proc → Outcome Verdict
  unfolding compare_runs
  verify source nonce commitment first second =
      if not (verify_reveal rt.sha256 source nonce commitment)
      then value (
          verdict true one_point false
            "Poster's revealed acceptance test does not match the on-chain commitment. Goalpost-moving is treated as a passing verification for the worker.")
      else (do a ← run_once rt first; b ← run_once rt second; value (compare_runs a b))
