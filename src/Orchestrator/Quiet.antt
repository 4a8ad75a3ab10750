-- ===== src/Orchestrator/Quiet.antt =====
-- Which steps of `run` of brain/merita/orchestrator.py send nothing to a path of the chain seam.
use merita.Prelude.{
  ℕ, ◌+◌, String, Bool, true, false, ◌≡◌, refl, ◌∙◌, Option, none, some, [], ◌∷◌, ◌++◌, arith,
  if◌then◌else◌, concat,
}
use merita.Prelude.Int.{ℤ, ◌+ℤ◌}
use merita.Json.{Json, Fields, str, obj, field, end}
use merita.Runtime.{Runtime}
use merita.Commitment.{AcceptanceTest}
use merita.Models.{Verdict, claimed, quarantined, submitted}
use merita.Integrity
use merita.Integrity.{Graph, Report, Arithmetic, new_graph, assess}
use merita.Integrity.Fingerprint.{Words}
use merita.Router.{lock_reward, lock_body, read_lock, referee_fee, pay_ace}
use merita.Sidecar.{Sidecar, World, Work, ◌>>=◌, pure, lift, post, observe, spec_seen}
use merita.Orchestrator.{
  Bounty, seal, execute, verify_and_settle, book, opt_list, text_of, as_deliverable, test_of, rule,
  pay_out, publish,
}
use merita.Orchestrator.Requests.{
  requests, hit, Sends, >>=-Sends, lift-Sends, pure-Sends, post-Sends, seal-Sends, book-Sends,
  pay_ace-Sends, rule-Sends, pay_out-Sends, publish-Sends,
}
use merita.Orchestrator.Posting.{
  Offer, turn_away, lock, admit, with_worker, chosen, post_bounty, new_bounty, gate_verdict,
  graph_in,
}

neither : (c : Bool) (n : ℕ) → n + (if c then 0 else 0) ≡ n + 0
neither true n = refl
neither false n = refl

module _ (rt : Runtime) (sidecar : Sidecar) (int_of : Json → Option ℤ)
    (referee_pda referee_wallet : String)
    (referee : String → String → String → Option Json → Verdict)
    (tests : String → Option AcceptanceTest) (prompt : String → Option Json → String) where
  pub execute-Sends :
      (path : String) (b : Bounty) (service : String) (args : Json)
      → hit "/ace/call" path ≡ 0
      → Sends path 0
          (execute rt sidecar int_of referee_pda referee_wallet referee tests prompt b service args)
  unfolding execute
  execute-Sends path b service args quiet =
      let finish : Json → Bounty → Work Bounty = λ result b'.
        pure (record b' { deliverable = some (as_deliverable result); state = submitted }) in
      >>=-Sends path 0 (pay_ace sidecar int_of referee_pda service args (text_of b.claimed_by_pda))
        (λ (result, receipt). book (opt_list receipt) b >>= finish result)
        (λ w. omega (
          arith,
          quiet,
          pay_ace-Sends rt sidecar int_of referee_pda referee_wallet referee tests prompt path
              service args (text_of b.claimed_by_pda) w,
        ))
        (λ (result, receipt).
          >>=-Sends path 0 (book (opt_list receipt) b) (finish result)
            (book-Sends path (opt_list receipt) b)
            (λ b'.
              pure-Sends path
                (record b' { deliverable = some (as_deliverable result); state = submitted })))

  pub verify_and_settle-Sends :
      (b : Bounty)
      → Sends "/sap/escrow/lock" 0
          (verify_and_settle rt sidecar int_of referee_pda referee_wallet referee tests prompt b)
  unfolding verify_and_settle
  verify_and_settle-Sends b =
      let close : Verdict × Bounty → Work Bounty = λ (v, b').
        pay_out rt sidecar int_of referee_pda referee_wallet referee tests prompt b' v >>= (λ paid.
          publish rt sidecar int_of referee_pda referee_wallet referee tests prompt paid v) in
      let judge : AcceptanceTest → Work (Verdict × Bounty) = λ test.
        rule rt sidecar int_of referee_pda referee_wallet referee tests prompt b
          (referee test.source test.nonce b.test_commitment b.deliverable) in
      >>=-Sends "/sap/escrow/lock" 0
        (lift
          (test_of rt sidecar int_of referee_pda referee_wallet referee tests prompt (tests b.id)))
        (λ test. judge test >>= close)
        (lift-Sends "/sap/escrow/lock"
          (test_of rt sidecar int_of referee_pda referee_wallet referee tests prompt (tests b.id)))
        (λ test.
          >>=-Sends "/sap/escrow/lock" 0 (judge test) close
            (rule-Sends rt sidecar int_of referee_pda referee_wallet referee tests prompt
              "/sap/escrow/lock" b (referee test.source test.nonce b.test_commitment b.deliverable)
              refl)
            (λ (v, b').
              >>=-Sends "/sap/escrow/lock" 0
                (pay_out rt sidecar int_of referee_pda referee_wallet referee tests prompt b' v)
                (λ paid.
                  publish rt sidecar int_of referee_pda referee_wallet referee tests prompt paid v)
                (λ w.
                  let sent =
                    pay_out-Sends rt sidecar int_of referee_pda referee_wallet referee tests prompt
                      "/sap/escrow/lock" b' v w in
                  sent ∙ neither v.passed (requests "/sap/escrow/lock" w))
                (λ paid.
                  publish-Sends rt sidecar int_of referee_pda referee_wallet referee tests prompt
                    "/sap/escrow/lock" paid v refl refl)))

module _ (rt : Runtime) (words : Words) (ar : Arithmetic) (sidecar : Sidecar)
    (int_of : Json → Option ℤ) (referee_pda referee_wallet : String)
    (referee : String → String → String → Option Json → Verdict)
    (tests : String → Option AcceptanceTest) (prompt : String → Option Json → String) where
  -- A path of neither the discovery, the lock nor the trace.
  abbrev pub IsLater : String → Type 0
  IsLater path =
      (hit "/sap/discover" path ≡ 0)
      × (hit "/sap/escrow/lock" path ≡ 0)
      × (hit "/sap/audit/seal" path ≡ 0)

  turn_away-Sends :
      (path : String) (b : Bounty) (r : Report)
      → IsLater path
      → Sends path 0
          (turn_away rt words ar sidecar int_of referee_pda referee_wallet referee tests prompt b r)
  unfolding turn_away
  turn_away-Sends path b r (d, l, a) =
      let done : Bounty = record b {
        state = quarantined;
        verdict = some (
            gate_verdict rt words ar sidecar int_of referee_pda referee_wallet referee tests prompt
              r);
      } in
      >>=-Sends path 0
        (seal rt sidecar int_of referee_pda referee_wallet referee tests prompt b
          ("QUARANTINED before escrow" ∷ r.flags))
        (λ sealed. pure done)
        (λ w. omega (
          arith,
          a,
          seal-Sends rt sidecar int_of referee_pda referee_wallet referee tests prompt path b
              ("QUARANTINED before escrow" ∷ r.flags) w,
        ))
        (λ sealed. pure-Sends path done)

  lock-Sends :
      (path : String) (b : Bounty) (worker : String)
      → IsLater path
      → Sends path 0
          (lock rt words ar sidecar int_of referee_pda referee_wallet referee tests prompt b worker)
  unfolding lock lock_reward
  lock-Sends path b worker (d, l, a) =
      let body =
        lock_body sidecar int_of referee_pda b.poster_wallet_path worker
          (b.reward_lamports +ℤ referee_fee b.reward_lamports) (concat ("merita:" ∷ b.id ∷ [])) in
      let close : Json × Json → Work Bounty = λ (escrow_id, signature).
        pure (record b { state = claimed; escrow_id = escrow_id; claimed_by_pda = some worker }) in
      >>=-Sends path 0
        (post sidecar "/sap/escrow/lock" body >>= (λ answer. lift (read_lock answer))) close
        (>>=-Sends path 0 (post sidecar "/sap/escrow/lock" body) (λ answer. lift (read_lock answer))
          (λ w. omega (arith, l, post-Sends sidecar path "/sap/escrow/lock" body w))
          (λ answer. lift-Sends path (read_lock answer)))
        (λ (escrow_id, signature).
          pure-Sends path
            (record b { state = claimed; escrow_id = escrow_id; claimed_by_pda = some worker }))

  admit-Sends :
      (path : String) (c : Bool) (b : Bounty) (r : Report) (worker : String)
      → IsLater path
      → Sends path 0 (
          if c
          then turn_away rt words ar sidecar int_of referee_pda referee_wallet referee tests prompt
              b r
          else lock rt words ar sidecar int_of referee_pda referee_wallet referee tests prompt b
              worker)
  admit-Sends path true b r worker later = turn_away-Sends path b r later
  admit-Sends path false b r worker later = lock-Sends path b worker later

  with_worker-Sends :
      (path : String) (offer : Offer) (b : Bounty) (o : Option String)
      → IsLater path
      → Sends path 0 (
          with_worker rt words ar sidecar int_of referee_pda referee_wallet referee tests prompt
            offer b o)
  unfolding with_worker admit
  with_worker-Sends path offer b none later w = omega arith
  with_worker-Sends path offer b (some worker) later w =
      let r =
        assess ar offer.poster_pda worker
          (graph_in rt words ar sidecar int_of referee_pda referee_wallet referee tests prompt w) in
      admit-Sends path (Integrity.quarantined r) b r worker later w

  pub post_bounty-Sends :
      (path bid nonce : String) (offer : Offer)
      → IsLater path
      → Sends path 0 (
          post_bounty rt words ar sidecar int_of referee_pda referee_wallet referee tests prompt bid
            nonce offer)
  unfolding post_bounty observe chosen
  post_bounty-Sends path bid nonce offer (d, l, a) w =
      let w1 : World = record w {
        observed = w.observed ++ spec_seen offer.poster_pda offer.spec ∷ [];
      } in
      let body : Fields =
        field "walletPath" (str referee_wallet)
          (field "by" (obj (field "capability" (str offer.required_capability) end)) end) in
      let b =
        new_bounty rt words ar sidecar int_of referee_pda referee_wallet referee tests prompt bid
          (record { source = offer.acceptance_test_source; nonce = nonce }) offer in
      >>=-Sends path 0 (post sidecar "/sap/discover" body)
        (λ answer.
          chosen rt words ar sidecar int_of referee_pda referee_wallet referee tests prompt offer
            answer
          >>= with_worker rt words ar sidecar int_of referee_pda referee_wallet referee tests prompt
              offer b)
        (λ w. omega (arith, d, post-Sends sidecar path "/sap/discover" body w))
        (λ answer.
          >>=-Sends path 0
            (chosen rt words ar sidecar int_of referee_pda referee_wallet referee tests prompt offer
              answer)
            (with_worker rt words ar sidecar int_of referee_pda referee_wallet referee tests prompt
              offer b)
            (λ w. omega arith) (λ o. with_worker-Sends path offer b o (d, l, a)))
        w1
