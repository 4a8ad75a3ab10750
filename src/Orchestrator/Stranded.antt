-- ===== src/Orchestrator/Stranded.antt =====
-- A run of brain/merita/orchestrator.py whose work fails behind the lock: no step withdraws the escrow.
use merita.Prelude.{◌+◌, String, ◌≡◌, refl, ap, ◌∙◌, ◌⊎◌, inl, inr, Option, arith, if◌then◌else◌}
use merita.Prelude.Int.{ℤ}
use merita.Prelude.Attempt.{returned, raised}
use merita.Json.{Json}
use merita.Runtime.{Runtime}
use merita.Commitment.{AcceptanceTest}
use merita.Models.{Verdict, claimed}
use merita.Integrity.{Graph, Arithmetic}
use merita.Integrity.Fingerprint.{Words}
use merita.Sidecar.{Sidecar, World, Work, pure, >>=-goes_on, >>=-stops}
use merita.Orchestrator.{Bounty, execute, verify_and_settle}
use merita.Orchestrator.Requests.{requests}
use merita.Orchestrator.Quiet.{execute-Sends, post_bounty-Sends}
use merita.Orchestrator.Locks.{IsLocked, IsTurnedDown, seen_graph, post_bounty-IsLocked}
use merita.Orchestrator.Closing.{locks, closes}
use merita.Orchestrator.Posting.{Offer, post_bounty, with_test, is_claimed, go_on, run}

module _ (rt : Runtime) (words : Words) (ar : Arithmetic) (sidecar : Sidecar)
    (int_of : Json → Option ℤ) (referee_pda referee_wallet : String)
    (referee : String → String → String → Option Json → Verdict)
    (tests : String → Option AcceptanceTest) (prompt : String → Option Json → String) where
  -- a bounty that is claimed was not turned down
  locked_once :
      (offer : Offer) (g : Graph) (b : Bounty) (w w' : World)
      → b.state ≡ claimed
      → IsLocked rt words ar sidecar int_of referee_pda referee_wallet referee tests prompt offer g
          b w w'
        ⊎ IsTurnedDown rt words ar sidecar int_of referee_pda referee_wallet referee tests prompt b
            w w'
      → requests "/sap/escrow/lock" w' ≡ requests "/sap/escrow/lock" w + 1
  locked_once offer g b w w' is (inl (worker, state, who, clean, sent)) = sent
  locked_once offer g b w w' is (inr (inl over, sent)) = absurd (ground (arith, is, over))
  locked_once offer g b w w' is (inr (inr over, sent)) = absurd (ground (arith, is, over))

  module _ (bid nonce service : String) (offer : Offer) (args : Json) (w : World) (b : Bounty) where
    -- the bounty was claimed, and the worker's call of the service failed
    abbrev pub claimed_in : World
    claimed_in =
        (post_bounty rt words ar sidecar int_of referee_pda referee_wallet referee tests prompt bid
          nonce offer w).1

    abbrev all_tests : String → Option AcceptanceTest
    all_tests =
        with_test rt words ar sidecar int_of referee_pda referee_wallet referee tests prompt bid
          (record { source = offer.acceptance_test_source; nonce = nonce })

    abbrev work : Work Bounty
    work =
        execute rt sidecar int_of referee_pda referee_wallet referee all_tests prompt b service args

    run_stopped :
        (post_bounty rt words ar sidecar int_of referee_pda referee_wallet referee tests prompt bid
            nonce offer w).0
          ≡ returned b
        → b.state ≡ claimed
        → (work claimed_in).0 ≡ raised
        → run rt words ar sidecar int_of referee_pda referee_wallet referee tests prompt bid nonce
            offer service args w
          ≡ (raised, (work claimed_in).1)
    unfolding run go_on
    run_stopped posted state fails =
        >>=-goes_on
          (post_bounty rt words ar sidecar int_of referee_pda referee_wallet referee tests prompt
            bid nonce offer)
          (λ b'.
            if is_claimed b'.state
            then go_on rt words ar sidecar int_of referee_pda referee_wallet referee tests prompt
                all_tests b' service args
            else pure b')
          w b posted
        ∙ rw (ap is_claimed state) (
            >>=-stops work
              (verify_and_settle rt sidecar int_of referee_pda referee_wallet referee all_tests
                prompt)
              claimed_in fails)

    -- A failure behind the lock strands the escrow. If a bounty was claimed, and then the worker's call of
    -- the service raises, the run raises; it has locked one escrow, and settled or withdrawn none.
    pub failed_work_strands_the_escrow :
        (post_bounty rt words ar sidecar int_of referee_pda referee_wallet referee tests prompt bid
            nonce offer w).0
          ≡ returned b
        → b.state ≡ claimed
        → (execute rt sidecar int_of referee_pda referee_wallet referee
            (with_test rt words ar sidecar int_of referee_pda referee_wallet referee tests prompt
              bid
              (record { source = offer.acceptance_test_source; nonce = nonce }))
            prompt
            b
            service
            args
            claimed_in).0
          ≡ raised
        → let out =
            run rt words ar sidecar int_of referee_pda referee_wallet referee tests prompt bid nonce
              offer service args w in
          (out.0 ≡ raised)
          × (locks rt words ar sidecar int_of referee_pda referee_wallet referee tests prompt out.1
              ≡ locks rt words ar sidecar int_of referee_pda referee_wallet referee tests prompt w
                + 1)
          × (closes rt words ar sidecar int_of referee_pda referee_wallet referee tests prompt out.1
              ≡ closes rt words ar sidecar int_of referee_pda referee_wallet referee tests prompt w)
    failed_work_strands_the_escrow posted state fails =
        let gate =
          locked_once offer
            (seen_graph rt words ar sidecar int_of referee_pda referee_wallet referee tests prompt
              offer w)
            b w claimed_in state
            (post_bounty-IsLocked rt words ar sidecar int_of referee_pda referee_wallet referee
              tests prompt bid nonce offer w b posted) in
        let before = λ (path : String).
          execute-Sends rt sidecar int_of referee_pda referee_wallet referee all_tests prompt path b
            service args in
        let s1 =
          post_bounty-Sends rt words ar sidecar int_of referee_pda referee_wallet referee tests
            prompt "/sap/escrow/settle" bid nonce offer (refl, refl, refl) w in
        let s2 =
          post_bounty-Sends rt words ar sidecar int_of referee_pda referee_wallet referee tests
            prompt "/sap/escrow/withdraw" bid nonce offer (refl, refl, refl) w in
        let e1 = before "/sap/escrow/lock" refl claimed_in in
        let e2 = before "/sap/escrow/settle" refl claimed_in in
        let e3 = before "/sap/escrow/withdraw" refl claimed_in in
        rw (run_stopped posted state fails)
          (refl, omega (arith, gate, e1), omega (arith, s1, s2, e2, e3))
