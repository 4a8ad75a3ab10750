-- ===== src/BrainApi/Service.antt =====
-- brain/merita/main.py as it serves: `lifespan` up to the orchestrator, the request of a run with its
-- defaults, runs on the state that they share, and the route of the integrity report.
use merita.Prelude.{String, Bool, Option, none, some, List, [], ◌∷◌, ◌==◌, if◌then◌else◌}
use merita.Prelude.Int.{ℤ, pos}
use merita.Prelude.Float.{Float}
use merita.Prelude.Attempt.{Attempt, returned, raised}
use merita.Json.{Json, str, obj, Fields, end, field, lookup}
use merita.Runtime.{Runtime}
use merita.Commitment.{AcceptanceTest}
use merita.Models.{Verdict}
use merita.Integrity.{Arithmetic, Signals, Report, assess, quarantined, leaderboard_eligible}
use merita.Integrity.Fingerprint.{Words}
use merita.Facilitator.{as_object}
use merita.Sidecar.{Sidecar, World, Work, ◌>>=◌, lift, post}
use merita.Orchestrator.{Bounty}
use merita.Orchestrator.Posting.{Offer, with_test, graph_in, run}
use merita.BrainApi.{Bounties, Response, run_route}

-- `RunReq`, of which the title, the schema and the stake are only kept
pub record RunRequest : Type 0 where
  pub spec : String
  pub acceptance_test_source : String
  pub reward_lamports : ℤ
  pub required_capability : String
  pub service : String
  pub args : Json
  pub poster_pda : Option String

-- the request of a body that names the spec and the test alone
abbrev pub with_defaults : String → String → RunRequest
with_defaults spec test = record {
  spec = spec;
  acceptance_test_source = test;
  reward_lamports = pos 2000000;
  required_capability = "ace:search";
  service = "search.google";
  args = obj end;
  poster_pda = none;
}

-- `req.poster_pda or …`
abbrev or_referee : Option String → String → String
or_referee none referee_pda = referee_pda
or_referee (some p) referee_pda = if p == "" then referee_pda else p

unfoldable pub offer_of : String → String → RunRequest → Offer
offer_of poster_wallet referee_pda req = record {
  poster_pda = or_referee req.poster_pda referee_pda;
  poster_wallet_path = poster_wallet;
  spec = req.spec;
  acceptance_test_source = req.acceptance_test_source;
  reward_lamports = req.reward_lamports;
  required_capability = req.required_capability;
}

-- `ident[key]`; a key that is no text is taken as an error
abbrev named_text : String → Fields → Attempt String
named_text key d = elim (lookup key d) [ some (str s) ↦ returned s | _ ↦ raised ]

-- `lifespan`: the referee's address, from the chain seam; the probe of the verifier only writes to the log
unfoldable pub start_up : Sidecar → String → Work String
unfolding post
start_up sidecar referee_wallet = do
  answer ← post sidecar "/sap/identity" (field "walletPath" (str referee_wallet) end)
  ident ← lift (as_object answer)
  program_id ← lift (named_text "programId" ident)
  lift (named_text "pubkey" ident)

-- What the process keeps: `STATE`, the orchestrator's tests, and what happened on the chain and in the
-- graph.
pub record Brain : Type 0 where
  pub bounties : Bounties
  pub tests : String → Option AcceptanceTest
  pub world : World

-- a request, with the id and the nonce that were drawn for it, and the text of the exception
pub record Trigger : Type 0 where
  pub bid : String
  pub nonce : String
  pub request : RunRequest
  pub why : String

pub record IntegrityAnswer : Type 0 where
  pub score : Float
  pub signals : Signals
  pub flags : List String
  pub is_quarantined : Bool
  pub is_eligible : Bool

module _ (rt : Runtime) (words : Words) (ar : Arithmetic) (sidecar : Sidecar)
    (int_of : Json → Option ℤ) (referee_pda referee_wallet poster_wallet : String)
    (referee : String → String → String → Option Json → Verdict)
    (prompt : String → Option Json → String) where
  -- the orchestrator's run for a request
  abbrev pub run_of : Brain → Trigger → Work Bounty
  run_of brain t =
      run rt words ar sidecar int_of referee_pda referee_wallet referee brain.tests prompt t.bid
        t.nonce (offer_of poster_wallet referee_pda t.request) t.request.service t.request.args

  unfoldable pub run_bounty : Trigger → Brain → Response × Brain
  unfolding run_route
  run_bounty t brain =
      let (out, world) = run_of brain t brain.world in
      let (answer, bounties) = run_route out t.why brain.bounties in
      (
        answer,
        record {
          bounties = bounties;
          tests =
              with_test rt words ar sidecar int_of referee_pda referee_wallet referee brain.tests
                prompt t.bid
                (record { source = t.request.acceptance_test_source; nonce = t.nonce });
          world = world;
        },
      )

  unfoldable pub run_bounties : List Trigger → Brain → Brain
  unfolding run_bounty
  run_bounties [] brain = brain
  run_bounties (t ∷ ts) brain = run_bounties ts (run_bounty t brain).1

  unfoldable pub integrity_route : String → String → Brain → IntegrityAnswer
  integrity_route worker_pda poster brain =
      let r : Report = assess ar poster worker_pda (
        graph_in rt words ar sidecar int_of referee_pda referee_wallet referee brain.tests prompt
          brain.world) in
      record {
        score = r.score;
        signals = r.signals;
        flags = r.flags;
        is_quarantined = quarantined r;
        is_eligible = leaderboard_eligible r;
      }
