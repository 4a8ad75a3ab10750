-- ===== src/Tests/RefereeRuns.antt =====
-- Runs of the referee: its sandbox, its two tiers and its clients.
use merita.Prelude.{ℕ, String, Bool, true, false, ◌≡◌, ◌↔◌, ◌⊎◌, refl, Option, none, some, leb}
use merita.Prelude.Int.{pos}
use merita.Prelude.Float.{nan}
use merita.Json.{Json, bool, obj, end, field}
use merita.Commitment.{verify_reveal}
use merita.Models.{Verdict, Receipt}
use merita.Referee.Sandbox.{
  Proc, exited, hung, Host, returns, raises, isolated, harness, value, run_once,
}
use merita.Referee.Tier1.{verify}
use merita.Referee.Tier2.{answered, Opinion, opinion, adjudicate}
use merita.Referee.Client.{serve, brain_verify}
use merita.Referee.Fairness.{IsConviction, Ran, tier1_passes_iff, brain_convicts_iff}
use merita.Referee.Children.{Reports, tier1_convicts_iff}
use merita.Referee.Isolation.{harness_says_no}
use merita.Referee.Adjudication.{Condemns, adjudicate_fails_iff}
use merita.Tests.Fixtures.{rt, paid_answer}

abbrev good_host : Host
good_host = record {
  sandbox_uid = 65534;
  euid_before = 0;
  setgid_ok = true;
  setuid_ok = true;
  regains_root = false;
}

abbrev bad_host : Host
bad_host = record {
  sandbox_uid = 65534;
  euid_before = 0;
  setgid_ok = true;
  setuid_ok = false;
  regains_root = false;
}

abbrev says_no : Proc
says_no = exited (pos 0) "" (some (obj (field "ok" (bool true) (field "passed" (bool false) end))))

-- httpx raises at 4xx and 5xx
abbrev raises_at : ℕ → Bool
raises_at status = leb 400 status

tier1_convicts_iff_example :
    ((v : Verdict) × (verify rt "abc" "n" "a5" says_no (hung true) ≡ value v) × IsConviction v) ↔ (
      (verify_reveal rt.sha256 "abc" "n" "a5" ≡ true)
      × Reports false says_no
      × Reports false (hung true))
tier1_convicts_iff_example = tier1_convicts_iff rt "abc" "n" "a5" says_no (hung true)

tier1_passes_iff_example :
    ((v : Verdict) × (verify rt "abcd" "n" "a5" says_no says_no ≡ value v) × (v.passed ≡ true)) ↔ (
      (verify_reveal rt.sha256 "abcd" "n" "a5" ≡ false)
      ⊎ ((verify_reveal rt.sha256 "abcd" "n" "a5" ≡ true)
          × Ran (run_once rt says_no) true
          × Ran (run_once rt says_no) true))
tier1_passes_iff_example = tier1_passes_iff rt "abcd" "n" "a5" says_no says_no

brain_convicts_iff_example :
    IsConviction (brain_verify raises_at (serve (verify rt "abc" "n" "a5" says_no says_no))) ↔ (
      (verify_reveal rt.sha256 "abc" "n" "a5" ≡ true)
      × Ran (run_once rt says_no) false
      × Ran (run_once rt says_no) false)
brain_convicts_iff_example =
    brain_convicts_iff rt raises_at "abc" "n" "a5" says_no says_no refl refl refl

harness_says_no_example : Ran (run_once rt (harness good_host (raises "KeyError")).0) false ↔ (
    (isolated good_host ≡ true)
    × ((raises "KeyError" ≡ returns false) ⊎ ((e : String) × (raises "KeyError" ≡ raises e))))
harness_says_no_example = harness_says_no rt good_host (raises "KeyError") (λ p h. cc)

adjudicate_fails_iff_example : ((adjudicate rt (answered paid_answer none)).0.passed ≡ false) ↔ (
    (result : Json) × (receipt : Option Receipt) × (o : Opinion) × (answered paid_answer none
      ≡ answered result receipt)
    × (opinion rt result ≡ some o)
    × Condemns o)
adjudicate_fails_iff_example = adjudicate_fails_iff rt (answered paid_answer none)

abbrev unsure : Opinion
unsure = record { score = nan; confidence = nan; reason = "x" }
