-- ===== src/Orchestrator/Locks.antt =====
-- When `post_bounty` and `run` of brain/merita/orchestrator.py lock an escrow, and that it is closed.
use merita.Prelude.{
  ◌+◌, String, Bool, true, false, ◌≡◌, refl, ◌∙◌, ◌⊎◌, inl, inr, Option, none, some, [], ◌∷◌, ◌++◌,
  arith, if◌then◌else◌, concat,
}
use merita.Prelude.Int.{ℤ, ◌+ℤ◌}
use merita.Prelude.Attempt.{Attempt, returned}
use merita.Json.{Json, Fields, str, obj, field, end}
use merita.Runtime.{Runtime}
use merita.Commitment.{AcceptanceTest}
use merita.Models.{Verdict, claimed, quarantined, expired}
use merita.Integrity
use merita.Integrity.{Graph, Report, Arithmetic, new_graph, assess}
use merita.Integrity.Fingerprint.{Words}
use merita.Router.{lock_reward, lock_body, read_lock, referee_fee}
use merita.Sidecar.{
  Sidecar, World, Work, ◌>>=◌, pure, lift, post, observe, spec_seen, >>=-returned, >>=-runs,
}
use merita.Orchestrator.{Bounty, seal}
use merita.Orchestrator.Requests.{
  requests, Sends, >>=-Sends, lift-Sends, pure-Sends, post-Sends, seal-Sends,
}
use merita.Orchestrator.Posting.{
  Offer, graph_of, turn_away, lock, admit, with_worker, chosen, post_bounty, new_bounty,
  gate_verdict,
}

module _ (rt : Runtime) (words : Words) (ar : Arithmetic) (sidecar : Sidecar)
    (int_of : Json → Option ℤ) (referee_pda referee_wallet : String)
    (referee : String → String → String → Option Json → Verdict)
    (tests : String → Option AcceptanceTest) (prompt : String → Option Json → String) where
  turn_away-quarantined :
      (b : Bounty) (r : Report) (w : World) (b' : Bounty)
      → (turn_away rt words ar sidecar int_of referee_pda referee_wallet referee tests prompt b r
          w).0
        ≡ returned b'
      → (b'.state ≡ quarantined)
        × (requests "/sap/escrow/lock"
              (turn_away rt words ar sidecar int_of referee_pda referee_wallet referee tests prompt
                b r w).1
            ≡ requests "/sap/escrow/lock" w)
  unfolding turn_away
  turn_away-quarantined b r w b' h =
      let trace : Work (Attempt Json) =
        seal rt sidecar int_of referee_pda referee_wallet referee tests prompt b
          ("QUARANTINED before escrow" ∷ r.flags) in
      let done : Bounty = record b {
        state = quarantined;
        verdict = some (
            gate_verdict rt words ar sidecar int_of referee_pda referee_wallet referee tests prompt
              r);
      } in
      let (sealed, o, rest) = >>=-returned trace (λ sealed. pure done) w h in
      (
        cc,
        >>=-Sends "/sap/escrow/lock" 0 trace (λ sealed. pure done)
              (seal-Sends rt sidecar int_of referee_pda referee_wallet referee tests prompt
                "/sap/escrow/lock" b ("QUARANTINED before escrow" ∷ r.flags))
              (λ sealed. pure-Sends "/sap/escrow/lock" done) w
            ∙ omega arith,
      )

  lock_reward-Sends :
      (poster worker : String) (reward : ℤ) (memo : String)
      → Sends "/sap/escrow/lock" 1
          (lock_reward sidecar int_of referee_pda poster worker reward memo)
  unfolding lock_reward
  lock_reward-Sends poster worker reward memo =
      let body =
        lock_body sidecar int_of referee_pda poster worker (reward +ℤ referee_fee reward) memo in
      >>=-Sends "/sap/escrow/lock" 1 (post sidecar "/sap/escrow/lock" body)
        (λ answer. lift (read_lock answer))
        (post-Sends sidecar "/sap/escrow/lock" "/sap/escrow/lock" body)
        (λ answer. lift-Sends "/sap/escrow/lock" (read_lock answer))

  lock-claimed :
      (b : Bounty) (worker : String) (w : World) (b' : Bounty)
      → (lock rt words ar sidecar int_of referee_pda referee_wallet referee tests prompt b worker
          w).0
        ≡ returned b'
      → (b'.state ≡ claimed)
        × (b'.claimed_by_pda ≡ some worker)
        × (requests "/sap/escrow/lock"
              (lock rt words ar sidecar int_of referee_pda referee_wallet referee tests prompt b
                worker w).1
            ≡ requests "/sap/escrow/lock" w + 1)
  unfolding lock
  lock-claimed b worker w b' h =
      let memo = concat ("merita:" ∷ b.id ∷ []) in
      let locking : Work (Json × Json) =
        lock_reward sidecar int_of referee_pda b.poster_wallet_path worker b.reward_lamports memo in
      let close : Json × Json → Work Bounty = λ (escrow_id, signature).
        pure (record b { state = claimed; escrow_id = escrow_id; claimed_by_pda = some worker }) in
      let (p, o, rest) = >>=-returned locking close w h in
      (
        cc,
        cc,
        >>=-Sends "/sap/escrow/lock" 1 locking close
            (lock_reward-Sends b.poster_wallet_path worker b.reward_lamports memo)
            (λ (escrow_id, signature).
              pure-Sends "/sap/escrow/lock"
                (record b { state = claimed; escrow_id = escrow_id; claimed_by_pda = some worker }))
            w,
      )

  -- The bounty was claimed by a worker that the gate lets past on this graph, and one escrow was locked.
  abbrev pub IsLocked : Offer → Graph → Bounty → World → World → Type 0
  IsLocked offer g b w w' =
      (worker : String) × (b.state ≡ claimed)
      × (b.claimed_by_pda ≡ some worker)
      × (Integrity.quarantined (assess ar offer.poster_pda worker g) ≡ false)
      × (requests "/sap/escrow/lock" w' ≡ requests "/sap/escrow/lock" w + 1)

  -- The bounty ended before an escrow was locked.
  abbrev pub IsTurnedDown : Bounty → World → World → Type 0
  IsTurnedDown b w w' =
      ((b.state ≡ expired) ⊎ (b.state ≡ quarantined))
      × (requests "/sap/escrow/lock" w' ≡ requests "/sap/escrow/lock" w)

  admit-cases :
      (c : Bool) (b : Bounty) (r : Report) (worker : String) (w : World) (b' : Bounty)
      → ((if c
            then turn_away rt words ar sidecar int_of referee_pda referee_wallet referee tests
                prompt b r
            else lock rt words ar sidecar int_of referee_pda referee_wallet referee tests prompt b
                worker)
          w).0
        ≡ returned b'
      → let w' =
          ((if c
              then turn_away rt words ar sidecar int_of referee_pda referee_wallet referee tests
                  prompt b r
              else lock rt words ar sidecar int_of referee_pda referee_wallet referee tests prompt b
                  worker)
            w).1 in
        ((b'.state ≡ claimed)
          × (b'.claimed_by_pda ≡ some worker)
          × (c ≡ false)
          × (requests "/sap/escrow/lock" w' ≡ requests "/sap/escrow/lock" w + 1))
        ⊎ IsTurnedDown b' w w'
  admit-cases true b r worker w b' h =
      let (state, same) = turn_away-quarantined b r w b' h in inr (inr state, same)
  admit-cases false b r worker w b' h =
      let (state, who, sent) = lock-claimed b worker w b' h in inl (state, who, refl, sent)

  with_worker-gated :
      (offer : Offer) (b : Bounty) (o : Option String) (w : World) (b' : Bounty)
      → (with_worker rt words ar sidecar int_of referee_pda referee_wallet referee tests prompt
          offer b o w).0
        ≡ returned b'
      → let w' =
          (with_worker rt words ar sidecar int_of referee_pda referee_wallet referee tests prompt
            offer b o w).1 in
        IsLocked offer (graph_of words w.observed new_graph) b' w w' ⊎ IsTurnedDown b' w w'
  unfolding with_worker admit
  with_worker-gated offer b none w b' h = inr (inl cc, refl)
  with_worker-gated offer b (some worker) w b' h =
      let r = assess ar offer.poster_pda worker (graph_of words w.observed new_graph) in
      elim (admit-cases (Integrity.quarantined r) b r worker w b' h) [
        | inl (state, who, clean, sent) ↦ inl (worker, state, who, clean, sent)
        | inr down ↦ inr down
      ]

  -- the same, counted from another world with as many locks
  since :
      (w1 w w' : World) (offer : Offer) (g : Graph) (b : Bounty)
      → requests "/sap/escrow/lock" w1 ≡ requests "/sap/escrow/lock" w
      → IsLocked offer g b w1 w' ⊎ IsTurnedDown b w1 w'
      → IsLocked offer g b w w' ⊎ IsTurnedDown b w w'
  since w1 w w' offer g b same (inl (worker, state, who, clean, sent)) =
      inl (worker, state, who, clean, omega (arith, sent, same))
  since w1 w w' offer g b same (inr (state, sent)) = inr (state, omega (arith, sent, same))

  abbrev pub seen_graph : Offer → World → Graph
  seen_graph offer w =
      graph_of words (w.observed ++ spec_seen offer.poster_pda offer.spec ∷ []) new_graph

  -- No money moves before the gate. A bounty that comes out of `post_bounty` is claimed by a worker whom
  -- the integrity graph, with the bounty's own spec in it, does not quarantine, and then exactly one
  -- escrow was locked; or it is expired or quarantined, and none was.
  pub post_bounty-IsLocked :
      (bid nonce : String) (offer : Offer) (w : World) (b' : Bounty)
      → (post_bounty rt words ar sidecar int_of referee_pda referee_wallet referee tests prompt bid
          nonce offer w).0
        ≡ returned b'
      → let w' =
          (post_bounty rt words ar sidecar int_of referee_pda referee_wallet referee tests prompt
            bid nonce offer w).1 in
        IsLocked offer (seen_graph offer w) b' w w' ⊎ IsTurnedDown b' w w'
  unfolding post_bounty observe post chosen
  post_bounty-IsLocked bid nonce offer w b' h =
      let w1 : World = record w {
        observed = w.observed ++ spec_seen offer.poster_pda offer.spec ∷ [];
      } in
      let body : Fields =
        field "walletPath" (str referee_wallet)
          (field "by" (obj (field "capability" (str offer.required_capability) end)) end) in
      let b =
        new_bounty rt words ar sidecar int_of referee_pda referee_wallet referee tests prompt bid
          (record { source = offer.acceptance_test_source; nonce = nonce }) offer in
      let go_on : Option String → Work Bounty =
        with_worker rt words ar sidecar int_of referee_pda referee_wallet referee tests prompt offer
          b in
      let ask : Work Json = post sidecar "/sap/discover" body in
      let (answer, o1, r1) =
        >>=-runs ask
          (λ answer.
            chosen rt words ar sidecar int_of referee_pda referee_wallet referee tests prompt offer
              answer
            >>= go_on)
          w1 h in
      let w2 : World = (ask w1).1 in
      let (worker, o2, r2) =
        >>=-runs
          (chosen rt words ar sidecar int_of referee_pda referee_wallet referee tests prompt offer
            answer)
          go_on w2 (rw r1 at h) in
      let unlocked = post-Sends sidecar "/sap/escrow/lock" "/sap/discover" body w1 in
      let gated = with_worker-gated offer b worker w2 b' (rw (r1, r2) at h) in
      rw (r1, r2)
        (since w2 w (go_on worker w2).1 offer (seen_graph offer w) b' (omega (arith, unlocked))
          gated)
