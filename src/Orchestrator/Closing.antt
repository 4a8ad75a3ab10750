-- ===== src/Orchestrator/Closing.antt =====
-- `run` of brain/merita/orchestrator.py closes every escrow that it locks.
use merita.Prelude.{
  ℕ, ◌+◌, String, Bool, true, false, ◌≡◌, refl, ap, sym, ◌∙◌, ◌⊎◌, inl, inr, Option, arith,
  if◌then◌else◌,
}
use merita.Prelude.Int.{ℤ}
use merita.Prelude.Attempt.{returned}
use merita.Json.{Json}
use merita.Runtime.{Runtime}
use merita.Commitment.{AcceptanceTest}
use merita.Models.{Verdict, BountyState, quarantined, expired, settled, failed}
use merita.Integrity.{Arithmetic}
use merita.Integrity.Fingerprint.{Words}
use merita.Sidecar.{Sidecar, World, Work, pure, >>=-runs}
use merita.Orchestrator.{Bounty, execute, verify_and_settle}
use merita.Orchestrator.Requests.{requests}
use merita.Orchestrator.Settlement.{settled_or_withdrawn}
use merita.Orchestrator.Quiet.{execute-Sends, verify_and_settle-Sends, post_bounty-Sends}
use merita.Orchestrator.Locks.{IsLocked, IsTurnedDown, seen_graph, post_bounty-IsLocked}
use merita.Orchestrator.Posting.{Offer, post_bounty, with_test, is_claimed, go_on, run}

module _ (rt : Runtime) (words : Words) (ar : Arithmetic) (sidecar : Sidecar)
    (int_of : Json → Option ℤ) (referee_pda referee_wallet : String)
    (referee : String → String → String → Option Json → Verdict)
    (tests : String → Option AcceptanceTest) (prompt : String → Option Json → String) where
  -- how many escrows were locked, and how many closed
  abbrev pub locks : World → ℕ
  locks w = requests "/sap/escrow/lock" w

  abbrev pub closes : World → ℕ
  closes w = requests "/sap/escrow/settle" w + requests "/sap/escrow/withdraw" w

  -- The bounty is over: nobody has to act on it any more.
  abbrev pub IsOver : Bounty → Type 0
  IsOver b =
      ((b.state ≡ expired) ⊎ (b.state ≡ quarantined)) ⊎ ((b.state ≡ settled) ⊎ (b.state ≡ failed))

  concluded-over :
      (c : Bool) (s : BountyState)
      → s ≡ (if c then settled else failed)
      → (s ≡ settled) ⊎ (s ≡ failed)
  concluded-over true s h = inl h
  concluded-over false s h = inr h

  one_close : (c : Bool) → (if c then 1 else 0) + (if c then 0 else 1) ≡ 1
  one_close true = refl
  one_close false = refl

  go_on-closes :
      (all_tests : String → Option AcceptanceTest) (b : Bounty) (service : String) (args : Json)
      (w : World) (b' : Bounty)
      → (go_on rt words ar sidecar int_of referee_pda referee_wallet referee tests prompt all_tests
          b service args w).0
        ≡ returned b'
      → let w' =
          (go_on rt words ar sidecar int_of referee_pda referee_wallet referee tests prompt
            all_tests b service args w).1 in
        ((b'.state ≡ settled) ⊎ (b'.state ≡ failed))
        × (locks w' ≡ locks w)
        × (closes w' ≡ closes w + 1)
  unfolding go_on
  go_on-closes all_tests b service args w b' h =
      let work : Work Bounty =
        execute rt sidecar int_of referee_pda referee_wallet referee all_tests prompt b service
          args in
      let judge : Bounty → Work Bounty =
        verify_and_settle rt sidecar int_of referee_pda referee_wallet referee all_tests prompt in
      let (b1, o, r) = >>=-runs work judge w h in
      let w1 : World = (work w).1 in
      let (v, over, settles, withdraws) =
        settled_or_withdrawn rt sidecar int_of referee_pda referee_wallet referee all_tests prompt
          b1 w1 b' (rw r at h) in
      let e1 =
        execute-Sends rt sidecar int_of referee_pda referee_wallet referee all_tests prompt
          "/sap/escrow/lock" b service args refl w in
      let e2 =
        execute-Sends rt sidecar int_of referee_pda referee_wallet referee all_tests prompt
          "/sap/escrow/settle" b service args refl w in
      let e3 =
        execute-Sends rt sidecar int_of referee_pda referee_wallet referee all_tests prompt
          "/sap/escrow/withdraw" b service args refl w in
      let e4 =
        verify_and_settle-Sends rt sidecar int_of referee_pda referee_wallet referee all_tests
          prompt b1 w1 in
      (
        concluded-over v.passed b'.state over.1,
        rw r (omega (arith, e1, e4)),
        rw r (omega (arith, e2, e3, settles, withdraws, one_close v.passed)),
      )

  -- The rest of a run: it goes on and closes one escrow, or it ends as it is.
  abbrev Rest : Bool → Bounty → World → Bounty → World → Type 0
  Rest c b w b' w' =
      ((c ≡ true)
        × ((b'.state ≡ settled) ⊎ (b'.state ≡ failed))
        × (locks w' ≡ locks w)
        × (closes w' ≡ closes w + 1))
      ⊎ ((c ≡ false) × (b ≡ b') × (locks w' ≡ locks w) × (closes w' ≡ closes w))

  go_on-Rest :
      (c : Bool) (all_tests : String → Option AcceptanceTest) (b : Bounty) (service : String)
      (args : Json) (w : World) (b' : Bounty)
      → ((if c
            then go_on rt words ar sidecar int_of referee_pda referee_wallet referee tests prompt
                all_tests b service args
            else pure b)
          w).0
        ≡ returned b'
      → Rest c b w b'
          ((if c
              then go_on rt words ar sidecar int_of referee_pda referee_wallet referee tests prompt
                  all_tests b service args
              else pure b)
            w).1
  go_on-Rest true all_tests b service args w b' h =
      let (over, locked, closed) = go_on-closes all_tests b service args w b' h in
      inl (refl, over, locked, closed)
  go_on-Rest false all_tests b service args w b' h = inr (refl, cc, refl, refl)

  run-balance :
      (offer : Offer) (b0 : Bounty) (w w1 w' : World) (b' : Bounty)
      → IsLocked rt words ar sidecar int_of referee_pda referee_wallet referee tests prompt offer
          (seen_graph rt words ar sidecar int_of referee_pda referee_wallet referee tests prompt
            offer w)
          b0
          w
          w1
        ⊎ IsTurnedDown rt words ar sidecar int_of referee_pda referee_wallet referee tests prompt b0
            w w1
      → closes w1 ≡ closes w
      → Rest (is_claimed b0.state) b0 w1 b' w'
      → IsOver b' × (closes w' + locks w ≡ closes w + locks w')
  run-balance offer b0 w w1 w' b' (inl (worker, state, who, clean, sent)) closed
        (inl (c, over, l, k)) =
      (inr over, omega (arith, sent, closed, l, k))
  run-balance offer b0 w w1 w' b' (inl (worker, state, who, clean, sent)) closed
        (inr (c, same, l, k)) =
      absurd (ground (arith, ap is_claimed state, c))
  run-balance offer b0 w w1 w' b' (inr (inl state, sent)) closed (inl (c, over, l, k)) =
      absurd (ground (arith, ap is_claimed state, c))
  run-balance offer b0 w w1 w' b' (inr (inr state, sent)) closed (inl (c, over, l, k)) =
      absurd (ground (arith, ap is_claimed state, c))
  run-balance offer b0 w w1 w' b' (inr (inl state, sent)) closed (inr (c, same, l, k)) = (
    inl (inl (ap (λ (b : Bounty). b.state) (sym same) ∙ state)),
    omega (arith, sent, closed, l, k),
  )
  run-balance offer b0 w w1 w' b' (inr (inr state, sent)) closed (inr (c, same, l, k)) = (
    inl (inr (ap (λ (b : Bounty). b.state) (sym same) ∙ state)),
    omega (arith, sent, closed, l, k),
  )

  -- A run leaves nothing open. A bounty that comes out of `run` is expired, quarantined, settled or failed,
  -- never claimed or submitted; and the run settled or withdrew as many escrows as it locked.
  pub run-IsOver :
      (bid nonce service : String) (offer : Offer) (args : Json) (w : World) (b' : Bounty)
      → (run rt words ar sidecar int_of referee_pda referee_wallet referee tests prompt bid nonce
          offer service args w).0
        ≡ returned b'
      → let w' =
          (run rt words ar sidecar int_of referee_pda referee_wallet referee tests prompt bid nonce
            offer service args w).1 in
        IsOver b' × (closes w' + locks w ≡ closes w + locks w')
  unfolding run
  run-IsOver bid nonce service offer args w b' h =
      let test : AcceptanceTest = record { source = offer.acceptance_test_source; nonce = nonce } in
      let all_tests =
        with_test rt words ar sidecar int_of referee_pda referee_wallet referee tests prompt bid
          test in
      let trigger : Work Bounty =
        post_bounty rt words ar sidecar int_of referee_pda referee_wallet referee tests prompt bid
          nonce offer in
      let rest : Bounty → Work Bounty = λ b.
        if is_claimed b.state
        then go_on rt words ar sidecar int_of referee_pda referee_wallet referee tests prompt
            all_tests b service args
        else pure b in
      let (b0, o, r) = >>=-runs trigger rest w h in
      let w1 : World = (trigger w).1 in
      let gate =
        post_bounty-IsLocked rt words ar sidecar int_of referee_pda referee_wallet referee tests
          prompt bid nonce offer w b0 o in
      let s1 =
        post_bounty-Sends rt words ar sidecar int_of referee_pda referee_wallet referee tests prompt
          "/sap/escrow/settle" bid nonce offer (refl, refl, refl) w in
      let s2 =
        post_bounty-Sends rt words ar sidecar int_of referee_pda referee_wallet referee tests prompt
          "/sap/escrow/withdraw" bid nonce offer (refl, refl, refl) w in
      rw r (
        run-balance offer b0 w w1 (rest b0 w1).1 b' gate (omega (arith, s1, s2))
          (go_on-Rest (is_claimed b0.state) all_tests b0 service args w1 b' (rw r at h)))
