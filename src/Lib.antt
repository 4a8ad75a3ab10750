-- ===== src/Lib.antt =====
-- Merita: a referee for work between agents. A poster commits to an acceptance test by a hash, a worker
-- delivers, and the referee reveals the test, runs it twice in a sandbox, and says whether the escrow is
-- to be released. Calls of the referee are paid over x402.
--
-- The parts, and the files that model them:
--   Commitment   the hash of test and nonce (`_commitment` of asp/store.py, `AcceptanceTest` of
--                brain/merita/models.py); SHA-256 is a parameter
--   Store        asp/store.py: the ledger of commitments and the log of verdicts, as lists of rows.
--                Store/Race runs concurrent calls of `commit` statement by statement
--   Models       brain/merita/models.py: verdicts and receipts
--   Referee      Sandbox and Tier1 are brain/merita/referee/tier1.py (the child program and the
--                verdict), Tier2 is tier2.py, Client is client.py, service.py and asp/verify_client.py
--   Facilitator  asp/okx_x402.py: settling a payment; the remote facilitator is a function from a
--                path and a body to its reply
--   Paywall      asp/paywall.py: `decide` is the middleware of the MCP endpoint up to what it does
--                with the request; Paywall/Stream is the replay of the body, Paywall/Wire the answers
--                that it sends
--   HttpDoor     asp/http_x402.py: `handle` is `verify_http`, a flow over the database that goes on,
--                answers early or raises
--   Integrity    brain/merita/integrity/graph.py: the graph of payments, specs and funders, and `assess`;
--                Integrity/Fingerprint is the fingerprint of a spec
--   Server       asp/server.py: Tools has the three tools, `_precheck` and the paywall in front of them,
--                Routes the public, internal and plain-HTTP routes; `step` is one request of any kind
--   A2aWorker    asp/a2a_worker.py: Cli is `_run` and `_json_from`, Entry is `main`; the wallet's command
--                line is a function of the commands that were run. A2aWorker/Verifier puts the server behind it
--   Sidecar      the world of the brain: what was posted to the chain seam
--                (brain/merita/sidecar.py), whose answers are a function of the earlier posts, and what
--                the integrity graph was shown
--   Router       brain/merita/rails/router.py: the fee, and the calls on the escrow
--   Orchestrator brain/merita/orchestrator.py: `execute`, `verify_and_settle` and `_seal`; Candidates and
--                Posting are `post_bounty` and `run`
--   BrainApi     brain/merita/main.py: the routes that run, read and count bounties; BrainApi/Service is
--                the start-up, and runs on the state that they share
--   Json, Runtime, Prelude   decoded JSON values, Python's standard library as a parameter, and
--                shared helpers: texts as code points, floats by their exact value, Python's calls
--                that return or raise
--   Tests        concrete runs on which the theorems' hypotheses hold
--
-- How they interact: the doors (Paywall, HttpDoor) take the facilitator as a record of its operations,
-- `Service`, which `Facilitator.service` builds; HttpDoor writes to Store and asks the referee, which is
-- a parameter of the door; the referee's verdict rests on Commitment and on what the two child
-- processes did. Server puts the paywall with its hook in front of the tools (`gate`), hands a plain
-- request to HttpDoor, and keeps a Store and an Integrity graph. Orchestrator asks the same graph, as its
-- observations made it, before Router locks an escrow; BrainApi/Service runs it for each request. The
-- A2aWorker's requests go to the Server's /internal/verify (A2aWorker/Verifier).
--
-- State is passed explicitly. Every call of the database has an argument that says whether it reached the
-- database. Loops are structural: the one search that the source bounds by a depth (`_dig`, at most
-- 7 levels) and the walk to the funders of a wallet (4 steps) are recursion on what is left of the
-- source's own bound.
--
-- Not modelled: logging, HTTP clients and servers, the wire form of the other answers,
-- time stamps, resource limits of the operating system (a child that one of them stops is among the
-- behaviours of a child); float arithmetic that rounds, which is a parameter of the integrity graph;
-- concurrent runs of the brain, which are taken one after another; TypeScript and web pages.
pub mod Prelude
pub mod Integrity
pub mod Json
pub mod Commitment
pub mod Store
pub mod Runtime
pub mod Models
pub mod Referee
pub mod Facilitator
pub mod Paywall
pub mod HttpDoor
pub mod Server
pub mod A2aWorker
pub mod Sidecar
pub mod Router
pub mod Orchestrator
pub mod BrainApi
pub mod Tests
