-- ===== src/Referee/Isolation.antt =====
-- The sandbox of tier1.py with its child: what a poster's test can do to a worker.
use merita.Prelude.{String, true, false, ◌≡◌, ◌≢◌, refl, ◌↔◌, ◌⊎◌, inl, inr, arith, Bool-cases}
use merita.Json.{get, truthy}
use merita.Runtime.{Runtime}
use merita.Commitment.{verify_reveal}
use merita.Referee.Sandbox.{
  Proc, sandbox_unavailable, run_once, Host, Behaviour, load_error, raises, no_check, memory_error,
  returns, takes_over, isolated, harness, judge, read_result,
}
use merita.Referee.Tier1.{verify}
use merita.Referee.Fairness.{Ran}

module _ (rt : Runtime) where
  -- On a host that cannot contain it, a test that was revealed as committed is not judged: the
  -- referee raises its alarm, and neither passes nor fails anyone.
  unsafe_host_raises :
      (source nonce c : String) (h : Host) (a b : Behaviour)
      → verify_reveal rt.sha256 source nonce c ≡ true
      → isolated h ≡ false
      → verify rt source nonce c (harness h a).0 (harness h b).0 ≡ sandbox_unavailable
  unfolding verify harness run_once
  unsafe_host_raises s n c h a b m i = rw (m, i)

  judged_no :
      (b : Behaviour)
      → ((p : Proc) → b ≢ takes_over p)
      → Ran (run_once rt (judge b)) false
      → (b ≡ returns false) ⊎ ((e : String) × (b ≡ raises e))
  unfolding judge run_once read_result truthy get
  judged_no (load_error e) plain (r, o, fine, said) = absurd (ground arith)
  judged_no (raises e) plain h = inr (e, refl)
  judged_no no_check plain (r, o, fine, said) = absurd (ground arith)
  judged_no memory_error plain (r, o, fine, said) = absurd (ground arith)
  judged_no (returns false) plain h = inl refl
  judged_no (returns true) plain (r, o, fine, said) = absurd (ground arith)
  judged_no (takes_over p) plain h = absurd (plain p refl)

  judged_false : Ran (run_once rt (judge (returns false))) false
  unfolding judge run_once read_result truthy get
  judged_false = (_, refl, refl, refl)

  judged_raise : (e : String) → Ran (run_once rt (judge (raises e))) false
  unfolding judge run_once read_result truthy get
  judged_raise e = (_, refl, refl, refl)

  -- A test that leaves the process alone says no, in a run that counts, exactly if it is run and
  -- returns a false value or raises; a test that does not load, has no `check`, or runs out of memory
  -- never counts against the worker.
  pub harness_says_no :
      (h : Host) (b : Behaviour)
      → ((p : Proc) → b ≢ takes_over p)
      → Ran (run_once rt (harness h b).0) false
        ↔ ((isolated h ≡ true) × ((b ≡ returns false) ⊎ ((e : String) × (b ≡ raises e))))
  unfolding harness
  harness_says_no h b plain = elim (Bool-cases (isolated h)) [
    | inl safe ↦ (
      λ says. (safe, judged_no b plain (rw safe at says)),
      λ w. elim w.1 [
        | inl e ↦ rw (safe, e) judged_false
        | inr (t, e) ↦ rw (safe, e) (judged_raise t)
      ],
    )
    | inr unsafe ↦ (
      λ says. absurd (unfold run_once in let (r, o, fine, said) = rw unsafe at says in cc o),
      λ w. absurd (cc (w.0)),
    )
  ]
