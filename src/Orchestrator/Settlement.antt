-- ===== src/Orchestrator/Settlement.antt =====
-- How often brain/merita/orchestrator.py settles and withdraws an escrow.
use merita.Prelude.{
  ◌+◌, String, Bool, true, false, ◌≡◌, refl, ◌∙◌, Option, some, arith, if◌then◌else◌,
}
use merita.Prelude.Int.{ℤ}
use merita.Prelude.Attempt.{Attempt, returned}
use merita.Json.{Json, str, or_else}
use merita.Runtime.{Runtime}
use merita.Commitment.{AcceptanceTest}
use merita.Models.{Verdict, settled, failed}
use merita.Sidecar.{Sidecar, World, Work, ◌>>=◌, pure, lift, post, >>=-returned, >>=-runs}
use merita.Router.{release, refund}
use merita.Orchestrator.{
  Bounty, book, seal, rule, settle_escrow, withdraw_escrow, pay_out, publish, verify_and_settle,
  test_of, text_of, entries, feedback_body,
}
use merita.Orchestrator.Requests.{requests, rule-Sends, pay_out-Sends, publish-Sends}

module _ (rt : Runtime) (sidecar : Sidecar) (int_of : Json → Option ℤ)
    (referee_pda referee_wallet : String)
    (referee : String → String → String → Option Json → Verdict)
    (tests : String → Option AcceptanceTest) (prompt : String → Option Json → String) where
  -- What a bounty that comes out of `pay_out` says of itself.
  abbrev pub Concluded : Verdict → Bounty → Type 0
  Concluded v b = (b.verdict ≡ some v) × (b.state ≡ (if v.passed then settled else failed))

  settle_escrow-Concluded :
      (b : Bounty) (v : Verdict) (w : World) (b' : Bounty)
      → (settle_escrow rt sidecar int_of referee_pda referee_wallet referee tests prompt b v w).0
        ≡ returned b'
      → (b'.verdict ≡ some v) × (b'.state ≡ settled)
  unfolding settle_escrow
  settle_escrow-Concluded b v w b' h =
      let close : Bounty → Work Bounty =
        λ b'. pure (record b' { state = settled; verdict = some v }) in
      let (rs, paid, rest) =
        >>=-returned
          (release sidecar int_of referee_pda b.poster_wallet_path (or_else b.escrow_id (str ""))
            (text_of b.claimed_by_pda) b.reward_lamports)
          (λ rs. book rs b >>= close) w h in
      let (booked, seen, last) = >>=-returned (book rs b) close _ rest in (cc, cc)

  withdraw_escrow-Concluded :
      (b : Bounty) (v : Verdict) (w : World) (b' : Bounty)
      → (withdraw_escrow rt sidecar int_of referee_pda referee_wallet referee tests prompt b v w).0
        ≡ returned b'
      → (b'.verdict ≡ some v) × (b'.state ≡ failed)
  unfolding withdraw_escrow
  withdraw_escrow-Concluded b v w b' h =
      let (done, paid, last) =
        >>=-returned
          (refund sidecar int_of referee_pda b.poster_wallet_path (or_else b.escrow_id (str "")))
          (λ done. pure (record b { state = failed; verdict = some v })) w h in
      (cc, cc)

  pay_out-Concluded :
      (b : Bounty) (v : Verdict) (w : World) (b' : Bounty)
      → (pay_out rt sidecar int_of referee_pda referee_wallet referee tests prompt b v w).0
        ≡ returned b'
      → Concluded v b'
  unfolding pay_out
  pay_out-Concluded b v w b' h = split v.passed h
    where
      split :
          (c : Bool)
          → ((if c
                then settle_escrow rt sidecar int_of referee_pda referee_wallet referee tests prompt
                    b v
                else withdraw_escrow rt sidecar int_of referee_pda referee_wallet referee tests
                    prompt b v)
              w).0
            ≡ returned b'
          → (b'.verdict ≡ some v) × (b'.state ≡ (if c then settled else failed))
      split true h = settle_escrow-Concluded b v w b' h
      split false h = withdraw_escrow-Concluded b v w b' h

  publish-returned :
      (b : Bounty) (v : Verdict) (w : World) (b' : Bounty)
      → (publish rt sidecar int_of referee_pda referee_wallet referee tests prompt b v w).0
        ≡ returned b'
      → b ≡ b'
  unfolding publish
  publish-returned b v w b' h =
      let trace : Work (Attempt Json) =
        seal rt sidecar int_of referee_pda referee_wallet referee tests prompt b
          (entries rt sidecar int_of referee_pda referee_wallet referee tests prompt b v) in
      let (posted, o, rest) =
        >>=-returned
          (post sidecar "/sap/feedback"
            (feedback_body rt sidecar int_of referee_pda referee_wallet referee tests prompt b v))
          (λ posted. trace >>= (λ sealed. pure b)) w h in
      let (sealed, o', last) =
        >>=-returned trace (λ sealed. pure b)
          (post sidecar "/sap/feedback"
            (feedback_body rt sidecar int_of referee_pda referee_wallet referee tests prompt b v)
            w).1
          rest in
      cc

  -- The way of a run of `verify_and_settle` that returned: a verdict, and the worlds between.
  abbrev Way : Bounty → World → Bounty → Type 0
  Way b w b' =
      (u : Verdict) × (p : Verdict × Bounty) × (paid : Bounty) × ((pay_out rt sidecar int_of
          referee_pda referee_wallet referee tests prompt p.1 p.0
          (rule rt sidecar int_of referee_pda referee_wallet referee tests prompt b u w).1).0
        ≡ returned paid)
      × (paid ≡ b')
      × (verify_and_settle rt sidecar int_of referee_pda referee_wallet referee tests prompt b w
          ≡ publish rt sidecar int_of referee_pda referee_wallet referee tests prompt paid p.0
              (pay_out rt sidecar int_of referee_pda referee_wallet referee tests prompt p.1 p.0
                (rule rt sidecar int_of referee_pda referee_wallet referee tests prompt b u w).1).1)

  verify_and_settle-Way :
      (b : Bounty) (w : World) (b' : Bounty)
      → (verify_and_settle rt sidecar int_of referee_pda referee_wallet referee tests prompt b w).0
        ≡ returned b'
      → Way b w b'
  unfolding verify_and_settle
  verify_and_settle-Way b w b' h =
      let last : Verdict × Bounty → Work Bounty = λ p.
        pay_out rt sidecar int_of referee_pda referee_wallet referee tests prompt p.1 p.0
        >>= (λ paid.
            publish rt sidecar int_of referee_pda referee_wallet referee tests prompt paid p.0) in
      let judged : AcceptanceTest → Verdict =
        λ test. referee test.source test.nonce b.test_commitment b.deliverable in
      let (test, found, r1) =
        >>=-runs
          (lift (
            test_of rt sidecar int_of referee_pda referee_wallet referee tests prompt (tests b.id)))
          (λ test.
            rule rt sidecar int_of referee_pda referee_wallet referee tests prompt b (judged test)
            >>= last)
          w h in
      let (p, ruled, r2) =
        >>=-runs
          (rule rt sidecar int_of referee_pda referee_wallet referee tests prompt b (judged test))
          last w (rw r1 at h) in
      let w1 : World =
        (rule rt sidecar int_of referee_pda referee_wallet referee tests prompt b (judged test)
          w).1 in
      let h2 : (last p w1).0 ≡ returned b' = rw (r1, r2) at h in
      let (paid, e, r3) =
        >>=-runs (pay_out rt sidecar int_of referee_pda referee_wallet referee tests prompt p.1 p.0)
          (λ paid.
            publish rt sidecar int_of referee_pda referee_wallet referee tests prompt paid p.0)
          w1 h2 in
      (
        judged test,
        p,
        paid,
        e,
        publish-returned paid p.0
            (pay_out rt sidecar int_of referee_pda referee_wallet referee tests prompt p.1 p.0 w1).1
            b' (rw r3 at h2),
        r1 ∙ r2 ∙ r3,
      )

  pub settled_or_withdrawn :
      (b : Bounty) (w : World) (b' : Bounty)
      → (verify_and_settle rt sidecar int_of referee_pda referee_wallet referee tests prompt b w).0
        ≡ returned b'
      → let w' =
          (verify_and_settle rt sidecar int_of referee_pda referee_wallet referee tests prompt b
            w).1 in
        (v : Verdict) × Concluded v b'
        × (requests "/sap/escrow/settle" w'
            ≡ requests "/sap/escrow/settle" w + (if v.passed then 1 else 0))
        × (requests "/sap/escrow/withdraw" w'
            ≡ requests "/sap/escrow/withdraw" w + (if v.passed then 0 else 1))
  settled_or_withdrawn b w b' h =
      let (u, (v, b1), paid, e, same, way) = verify_and_settle-Way b w b' h in
      let w1 : World =
        (rule rt sidecar int_of referee_pda referee_wallet referee tests prompt b u w).1 in
      let w2 : World =
        (pay_out rt sidecar int_of referee_pda referee_wallet referee tests prompt b1 v w1).1 in
      let s1 =
        rule-Sends rt sidecar int_of referee_pda referee_wallet referee tests prompt
          "/sap/escrow/settle" b u refl w in
      let s2 =
        pay_out-Sends rt sidecar int_of referee_pda referee_wallet referee tests prompt
          "/sap/escrow/settle" b1 v w1 in
      let s3 =
        publish-Sends rt sidecar int_of referee_pda referee_wallet referee tests prompt
          "/sap/escrow/settle" paid v refl refl w2 in
      let t1 =
        rule-Sends rt sidecar int_of referee_pda referee_wallet referee tests prompt
          "/sap/escrow/withdraw" b u refl w in
      let t2 =
        pay_out-Sends rt sidecar int_of referee_pda referee_wallet referee tests prompt
          "/sap/escrow/withdraw" b1 v w1 in
      let t3 =
        publish-Sends rt sidecar int_of referee_pda referee_wallet referee tests prompt
          "/sap/escrow/withdraw" paid v refl refl w2 in
      (
        v,
        rw (← same) (pay_out-Concluded b1 v w1 paid e),
        rw way (omega (arith, s1, s2, s3)),
        rw way (omega (arith, t1, t2, t3)),
      )
