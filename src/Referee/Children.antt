-- ===== src/Referee/Children.antt =====
-- What the parent of brain/merita/referee/tier1.py must see of its two child processes before a worker is
-- failed for good.
use merita.Prelude.{
  String, Bool, true, false, ◌≡◌, refl, ◌↔◌, inl, inr, arith, Bool-cases, Option, none, some,
}
use merita.Prelude.Int.{ℤ, pos, eqb_ℤ, eq_of_parts}
use merita.Json.{Json, null, bool, int, float, str, arr, obj, Fields, get, truthy}
use merita.Runtime.{Runtime}
use merita.Commitment.{verify_reveal}
use merita.Models.{Verdict}
use merita.Referee.Sandbox.{Proc, hung, exited, value, run_once, read_result}
use merita.Referee.Tier1.{verify}
use merita.Referee.Fairness.{IsConviction, Ran, verify_convicts_iff}

-- The child ended before the wall clock, with exit code 0, and the last line of its output is an object
-- that says that the test was run, and what it said.
abbrev pub Reports : Bool → Proc → Type 0
Reports said p =
    (stderr : String) × (res : Fields) × (p ≡ exited (pos 0) stderr (some (obj res)))
    × (truthy (get "ok" res) ≡ true)
    × (truthy (get "passed" res) ≡ said)

is_zero : (code : ℤ) → eqb_ℤ code (pos 0) ≡ true → code ≡ pos 0
is_zero code e = eq_of_parts code (pos 0) (ground (arith, e))

module _ (rt : Runtime) where
  line-Reports :
      (said : Bool) (stderr : String) (line : Option Json)
      → Ran (read_result line) said
      → Reports said (exited (pos 0) stderr line)
  unfolding read_result
  line-Reports said stderr none (r, o, ok, passed) = absurd (ground (arith, o, ok))
  line-Reports said stderr (some (obj res)) (r, o, ok, passed) =
      (stderr, res, refl, ground (arith, o, ok), ground (arith, o, passed))
  line-Reports said stderr (some null) (r, o, ok, passed) = cc o
  line-Reports said stderr (some (bool b)) (r, o, ok, passed) = cc o
  line-Reports said stderr (some (int z)) (r, o, ok, passed) = cc o
  line-Reports said stderr (some (float x)) (r, o, ok, passed) = cc o
  line-Reports said stderr (some (str s)) (r, o, ok, passed) = cc o
  line-Reports said stderr (some (arr xs)) (r, o, ok, passed) = cc o

  Ran-Reports : (said : Bool) (p : Proc) → Ran (run_once rt p) said → Reports said p
  unfolding run_once
  Ran-Reports said (hung false) (r, o, ok, passed) = cc o
  Ran-Reports said (hung true) (r, o, ok, passed) = absurd (ground (arith, o, ok))
  Ran-Reports said (exited code stderr line) (r, o, ok, passed) =
      elim (Bool-cases (eqb_ℤ code (pos 3))) [
        | inl three ↦ absurd (ground (arith, o, three))
        | inr other ↦ elim (Bool-cases (eqb_ℤ code (pos 0))) [
          | inl zero ↦
              let o' : read_result line ≡ value r = ground (arith, o, other, zero) in
              rw (is_zero code zero) (line-Reports said stderr line (r, o', ok, passed))
          | inr crash ↦ absurd (ground (arith, o, ok, other, crash))
        ]
      ]

  Reports-Ran : (said : Bool) (p : Proc) → Reports said p → Ran (run_once rt p) said
  unfolding run_once read_result
  Reports-Ran said p (stderr, res, e, ok, passed) = rw e (_, refl, ok, passed)

  -- Tier 1 fails the worker for good exactly if the reveal matches the commitment and each of the two
  -- children ended in time, with exit code 0, and reported that the test was run and said no. No crash,
  -- timeout, disagreement or broken host does.
  pub tier1_convicts_iff :
      (source nonce c : String) (first second : Proc)
      → ((v : Verdict) × (verify rt source nonce c first second ≡ value v) × IsConviction v) ↔ (
          (verify_reveal rt.sha256 source nonce c ≡ true)
          × Reports false first
          × Reports false second)
  tier1_convicts_iff s n c first second =
      let (forth, back) = verify_convicts_iff rt s n c first second in
      (
        λ w.
            let (matches, a, b) = forth w in
            (matches, Ran-Reports false first a, Ran-Reports false second b),
        λ (matches, a, b). back (matches, Reports-Ran false first a, Reports-Ran false second b),
      )
