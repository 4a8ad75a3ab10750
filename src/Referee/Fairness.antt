-- ===== src/Referee/Fairness.antt =====
-- The rules of the referee: the worker is failed for good only by two runs of the committed test that
-- both said so, and a poster who reveals another test loses.
use merita.Prelude.{ℕ, String, Bool, true, false, ◌≡◌, refl, ◌↔◌, ◌⊎◌, inl, inr, arith, Bool-cases}
use merita.Prelude.Float
use merita.Prelude.Float.{zero_point, one_point}
use merita.Runtime.{Runtime}
use merita.Commitment.{verify_reveal}
use merita.Models.{Verdict}
use merita.Referee.Sandbox.{Proc, Run, Outcome, value, sandbox_unavailable, exception, run_once}
use merita.Referee.Tier1
use merita.Referee.Tier1.{compare_runs, verify, ◌>>=◌}
use merita.Referee.Client.{serve, in_process, brain_verify, asp_verify}

-- A verdict that its reader takes as "you failed": not passed, and not without confidence.
abbrev pub IsConviction : Verdict → Type 0
IsConviction v = (v.passed ≡ false) × (Float.eq v.confidence zero_point ≡ false)

-- The call returned a run that worked and said `b`.
abbrev pub Ran : Outcome Run → Bool → Type 0
Ran o b = (r : Run) × (o ≡ value r) × (r.ok ≡ true) × (r.passed ≡ b)

module _ (rt : Runtime) where
  compare_runs_convicts :
      (a b : Run)
      → IsConviction (compare_runs rt a b)
      → (a.ok ≡ true) × (a.passed ≡ false) × (b.ok ≡ true) × (b.passed ≡ false)
  unfolding compare_runs Float.eq
  compare_runs_convicts a b h = ground arith

  compare_runs_fails :
      (a b : Run)
      → a.ok ≡ true
      → a.passed ≡ false
      → b.ok ≡ true
      → b.passed ≡ false
      → IsConviction (compare_runs rt a b)
  unfolding compare_runs Float.eq
  compare_runs_fails a b ha pa hb pb = ground arith

  abbrev two_runs : Outcome Run → Outcome Run → Outcome Verdict
  two_runs first second = do a ← first; b ← second; value (compare_runs rt a b)

  two_runs_convict :
      (x y : Outcome Run) (v : Verdict)
      → two_runs x y ≡ value v
      → IsConviction v
      → Ran x false × Ran y false
  two_runs_convict (value a) (value b) v e h =
      let same : compare_runs rt a b ≡ v = cc in
      let c = compare_runs_convicts a b (rw same h) in ((a, refl, c.0, c.1), (b, refl, c.2, c.3))
  two_runs_convict (value a) sandbox_unavailable v e h = cc
  two_runs_convict (value a) (exception t) v e h = cc
  two_runs_convict sandbox_unavailable y v e h = cc
  two_runs_convict (exception t) y v e h = cc

  verify-mismatch :
      (source nonce c : String) (first second : Proc)
      → verify_reveal rt.sha256 source nonce c ≡ false
      → (v : Verdict) × (verify rt source nonce c first second ≡ value v)
        × (v.passed ≡ true)
        × (v.confidence ≡ one_point)
        × (v.reveal_valid ≡ false)
  unfolding verify
  verify-mismatch s n c first second h =
      rw h (Tier1.verdict true one_point false _, refl, refl, refl, refl)

  verify-match :
      (source nonce c : String) (first second : Proc)
      → verify_reveal rt.sha256 source nonce c ≡ true
      → verify rt source nonce c first second ≡ two_runs (run_once rt first) (run_once rt second)
  unfolding verify
  verify-match s n c first second h = rw h

  -- The referee fails the worker for good exactly if the reveal matches the commitment and both runs
  -- worked and said no.
  pub verify_convicts_iff :
      (source nonce c : String) (first second : Proc)
      → ((v : Verdict) × (verify rt source nonce c first second ≡ value v) × IsConviction v) ↔ (
          (verify_reveal rt.sha256 source nonce c ≡ true)
          × Ran (run_once rt first) false
          × Ran (run_once rt second) false)
  verify_convicts_iff s n c first second = elim (Bool-cases (verify_reveal rt.sha256 s n c)) [
    | inl matches ↦ (
      λ (v, e, h).
          let both =
            two_runs_convict (run_once rt first) (run_once rt second) v
              (rw (verify-match s n c first second matches) at e) h in
          (matches, both.0, both.1),
      λ (_, (a, ea, oka, pa), (b, eb, okb, pb)). (
        compare_runs rt a b,
        rw (verify-match s n c first second matches, ea, eb) refl,
        compare_runs_fails a b oka pa okb pb,
      ),
    )
    | inr mismatch ↦ (
      λ (v, e, h). absurd (let m = verify-mismatch s n c first second mismatch in cc (m.1, m.2)),
      λ h. absurd (cc (h.0)),
    )
  ]

  compare_runs_passes :
      (a b : Run)
      → (compare_runs rt a b).passed ≡ true
      → (a.ok ≡ true) × (a.passed ≡ true) × (b.ok ≡ true) × (b.passed ≡ true)
  unfolding compare_runs
  compare_runs_passes a b h = ground arith

  compare_runs_pass :
      (a b : Run)
      → a.ok ≡ true
      → a.passed ≡ true
      → b.ok ≡ true
      → b.passed ≡ true
      → (compare_runs rt a b).passed ≡ true
  unfolding compare_runs
  compare_runs_pass a b ha pa hb pb = ground arith

  two_runs_pass :
      (x y : Outcome Run) (v : Verdict)
      → two_runs x y ≡ value v
      → v.passed ≡ true
      → Ran x true × Ran y true
  two_runs_pass (value a) (value b) v e h =
      let same : compare_runs rt a b ≡ v = cc in
      let c = compare_runs_passes a b (rw same h) in ((a, refl, c.0, c.1), (b, refl, c.2, c.3))
  two_runs_pass (value a) sandbox_unavailable v e h = cc
  two_runs_pass (value a) (exception t) v e h = cc
  two_runs_pass sandbox_unavailable y v e h = cc
  two_runs_pass (exception t) y v e h = cc

  -- Tier 1 passes the worker exactly if the poster reveals what was not committed, whatever the test
  -- does then, or if both runs of the committed test worked and said yes.
  pub tier1_passes_iff :
      (source nonce c : String) (first second : Proc)
      → ((v : Verdict) × (verify rt source nonce c first second ≡ value v) × (v.passed ≡ true)) ↔ (
          (verify_reveal rt.sha256 source nonce c ≡ false)
          ⊎ ((verify_reveal rt.sha256 source nonce c ≡ true)
              × Ran (run_once rt first) true
              × Ran (run_once rt second) true))
  tier1_passes_iff s n c first second = elim (Bool-cases (verify_reveal rt.sha256 s n c)) [
    | inl matches ↦ (
      λ (v, e, h).
          let both =
            two_runs_pass (run_once rt first) (run_once rt second) v
              (rw (verify-match s n c first second matches) at e) h in
          inr (matches, both.0, both.1),
      λ w. elim w [
        | inl differs ↦ absurd (cc)
        | inr (_, (a, ea, oka, pa), (b, eb, okb, pb)) ↦ (
          compare_runs rt a b,
          rw (verify-match s n c first second matches, ea, eb) refl,
          compare_runs_pass a b oka pa okb pb,
        )
      ],
    )
    | inr mismatch ↦ (
      λ (v, e, h). inl mismatch,
      λ w. let m = verify-mismatch s n c first second mismatch in (m.0, m.1, m.2),
    )
  ]

module _ (raises_at : ℕ → Bool) where
  asp_convicts_value :
      (o : Outcome Verdict)
      → IsConviction (asp_verify raises_at (in_process o))
      → (v : Verdict) × (o ≡ value v) × IsConviction v
  unfolding asp_verify Float.eq
  asp_convicts_value (value v) h = (v, refl, h)
  asp_convicts_value sandbox_unavailable h = cc (h.1)
  asp_convicts_value (exception e) h = cc (h.1)

  brain_convicts_value :
      (o : Outcome Verdict)
      → raises_at 200 ≡ false
      → raises_at 503 ≡ true
      → raises_at 500 ≡ true
      → IsConviction (brain_verify raises_at (serve o))
      → (v : Verdict) × (o ≡ value v) × IsConviction v
  unfolding brain_verify serve Float.eq
  brain_convicts_value (value v) h200 h503 h500 h = (v, refl, rw h200 at h)
  brain_convicts_value sandbox_unavailable h200 h503 h500 h = cc (
      let h' : IsConviction (brain_verify raises_at (serve sandbox_unavailable)) = h in
      (rw h503 at h').1)
  brain_convicts_value (exception e) h200 h503 h500 h = absurd (ground (arith, h.1))

module _ (rt : Runtime) (raises_at : ℕ → Bool) where
  -- Through the in-process handle of the service, too, the worker is failed for good exactly if the
  -- reveal matches and both runs of the committed test worked and said no.
  asp_convicts_iff :
      (source nonce c : String) (first second : Proc)
      → IsConviction (asp_verify raises_at (in_process (verify rt source nonce c first second))) ↔ (
          (verify_reveal rt.sha256 source nonce c ≡ true)
          × Ran (run_once rt first) false
          × Ran (run_once rt second) false)
  asp_convicts_iff s n c first second = (
    λ h.
        (verify_convicts_iff rt s n c first second).0
          (asp_convicts_value raises_at (verify rt s n c first second) h),
    λ h.
        let (v, e, convicted) = (verify_convicts_iff rt s n c first second).1 h in
        rw e (unfold asp_verify in convicted),
  )

  -- The brain asks the container over HTTP: where `raise_for_status` raises at 500 and 503 and not
  -- at 200, it is told "you failed" exactly if both runs of the committed test said no.
  pub brain_convicts_iff :
      (source nonce c : String) (first second : Proc)
      → raises_at 200 ≡ false
      → raises_at 503 ≡ true
      → raises_at 500 ≡ true
      → IsConviction (brain_verify raises_at (serve (verify rt source nonce c first second))) ↔ (
          (verify_reveal rt.sha256 source nonce c ≡ true)
          × Ran (run_once rt first) false
          × Ran (run_once rt second) false)
  brain_convicts_iff s n c first second h200 h503 h500 = (
    λ h.
        (verify_convicts_iff rt s n c first second).0
          (brain_convicts_value raises_at (verify rt s n c first second) h200 h503 h500 h),
    λ h.
        let (v, e, convicted) = (verify_convicts_iff rt s n c first second).1 h in
        rw e (unfold brain_verify serve in rw h200 convicted),
  )
