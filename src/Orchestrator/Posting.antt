-- ===== src/Orchestrator/Posting.antt =====
-- `post_bounty` and `run` of brain/merita/orchestrator.py: the trigger, the choice of a worker, the
-- integrity gate and the lock. The bounty's id and the test's nonce are what `uuid` and `secrets` gave.
use merita.Prelude.{
  String, Bool, true, false, Option, none, some, List, [], ◌∷◌, ◌==◌, if◌then◌else◌, concat,
}
use merita.Prelude.Int.{ℤ}
use merita.Prelude.Float.{one_point}
use merita.Json.{Json, null, str, obj, end, field}
use merita.Runtime.{Runtime}
use merita.Commitment.{AcceptanceTest, test_commitment}
use merita.Models.{BountyState, draft, claimed, quarantined, expired, deterministic, Verdict}
use merita.Integrity
use merita.Integrity.{Graph, Arithmetic, Report, new_graph, assess}
use merita.Integrity.Fingerprint.{Words}
use merita.Router.{lock_reward}
use merita.Sidecar.{
  Sidecar, World, Work, ◌>>=◌, pure, lift, post, observe, Observation, spec_seen, receipt_seen,
}
use merita.Orchestrator.Candidates.{choose}
use merita.Orchestrator.{Bounty, seal, execute, verify_and_settle}

-- the arguments of `post_bounty` that decide what it does
pub record Offer : Type 0 where
  pub poster_pda : String
  pub poster_wallet_path : String
  pub spec : String
  pub acceptance_test_source : String
  pub reward_lamports : ℤ
  pub required_capability : String

-- the graph after what it was shown
unfoldable pub graph_of : Words → List Observation → Graph → Graph
unfolding Integrity.observe Integrity.observe_spec
graph_of words [] g = g
graph_of words (spec_seen poster spec ∷ rest) g =
    graph_of words rest (Integrity.observe_spec words poster spec g)
graph_of words (receipt_seen r ∷ rest) g = graph_of words rest (Integrity.observe r g)

module _ (rt : Runtime) (words : Words) (ar : Arithmetic) (sidecar : Sidecar)
    (int_of : Json → Option ℤ) (referee_pda referee_wallet : String)
    (referee : String → String → String → Option Json → Verdict)
    (tests : String → Option AcceptanceTest) (prompt : String → Option Json → String) where
  -- the graph that the orchestrator shows its observations
  abbrev pub graph_in : World → Graph
  graph_in w = graph_of words w.observed new_graph

  -- `self._tests`, with the test of the new bounty
  abbrev pub with_test : String → AcceptanceTest → String → Option AcceptanceTest
  with_test bid test id = if id == bid then some test else tests id

  abbrev pub new_bounty : String → AcceptanceTest → Offer → Bounty
  new_bounty bid test offer = record {
    id = bid;
    poster_wallet_path = offer.poster_wallet_path;
    spec = offer.spec;
    test_commitment = test_commitment rt.sha256 test;
    reward_lamports = offer.reward_lamports;
    state = draft;
    escrow_id = null;
    claimed_by_pda = none;
    deliverable = none;
    verdict = none;
    receipts = [];
  }

  -- `"; ".join(flags)`
  abbrev join_flags : List String → String
  join_flags [] = ""
  join_flags (f ∷ []) = f
  join_flags (f ∷ g ∷ rest) = concat (f ∷ "; " ∷ join_flags (g ∷ rest) ∷ [])

  abbrev pub gate_verdict : Report → Verdict
  gate_verdict r = record {
    passed = false;
    tier_used = deterministic;
    confidence = one_point;
    reason = concat ("integrity gate: " ∷ rt.format_2f r.score ∷ " — " ∷ join_flags r.flags ∷ []);
    reveal_valid = true;
  }

  -- the bounty dies at the gate, and the trace says why
  unfoldable pub turn_away : Bounty → Report → Work Bounty
  unfolding seal
  turn_away b r = do
    sealed ←
        seal rt sidecar int_of referee_pda referee_wallet referee tests prompt b
          ("QUARANTINED before escrow" ∷ r.flags)
    pure (record b { state = quarantined; verdict = some (gate_verdict r) })

  unfoldable pub lock : Bounty → String → Work Bounty
  unfolding lock_reward
  lock b worker = do
    (escrow_id, signature) ←
        lock_reward sidecar int_of referee_pda b.poster_wallet_path worker b.reward_lamports
          (concat ("merita:" ∷ b.id ∷ []))
    pure (record b { state = claimed; escrow_id = escrow_id; claimed_by_pda = some worker })

  -- the gate on the chosen worker, before any money moves
  unfoldable pub admit : Bounty → Report → String → Work Bounty
  unfolding turn_away lock
  admit b r worker = if Integrity.quarantined r then turn_away b r else lock b worker

  unfoldable pub with_worker : Offer → Bounty → Option String → Work Bounty
  unfolding admit
  with_worker offer b none w = pure (record b { state = expired }) w
  with_worker offer b (some worker) w =
      admit b (assess ar offer.poster_pda worker (graph_in w)) worker w

  unfoldable pub chosen : Offer → Json → Work (Option String)
  unfolding choose
  chosen offer answer w = lift (choose rt ar offer.poster_pda (graph_in w) answer) w

  unfoldable pub post_bounty : String → String → Offer → Work Bounty
  unfolding observe post chosen with_worker
  post_bounty bid nonce offer = do
    seen ← observe (spec_seen offer.poster_pda offer.spec)
    answer ← post sidecar "/sap/discover" (
        field "walletPath" (str referee_wallet)
          (field "by" (obj (field "capability" (str offer.required_capability) end)) end))
    worker ← chosen offer answer
    with_worker offer
        (new_bounty bid (record { source = offer.acceptance_test_source; nonce = nonce }) offer)
        worker

abbrev pub is_claimed : BountyState → Bool
is_claimed claimed = true
is_claimed other = false

module _ (rt : Runtime) (words : Words) (ar : Arithmetic) (sidecar : Sidecar)
    (int_of : Json → Option ℤ) (referee_pda referee_wallet : String)
    (referee : String → String → String → Option Json → Verdict)
    (tests : String → Option AcceptanceTest) (prompt : String → Option Json → String) where
  -- the loop: `tests` are those of the other bounties
  unfoldable pub go_on : (String → Option AcceptanceTest) → Bounty → String → Json → Work Bounty
  unfolding execute verify_and_settle
  go_on all_tests b service args = do
    b' ←
        execute rt sidecar int_of referee_pda referee_wallet referee all_tests prompt b service args
    verify_and_settle rt sidecar int_of referee_pda referee_wallet referee all_tests prompt b'

  unfoldable pub run : String → String → Offer → String → Json → Work Bounty
  unfolding post_bounty go_on
  run bid nonce offer service args = do
    b ←
        post_bounty rt words ar sidecar int_of referee_pda referee_wallet referee tests prompt bid
          nonce offer
    if is_claimed b.state
        then go_on
            (with_test rt words ar sidecar int_of referee_pda referee_wallet referee tests prompt
              bid (record { source = offer.acceptance_test_source; nonce = nonce }))
            b service args
        else pure b
