-- ===== src/Tests/BrainRuns.antt =====
-- Runs of the settlement router and of the orchestrator.
use merita.Prelude.{
  ◌≤◌, false, value_at, update_at, encode, ◌⊎◌, ◌+◌, String, true, ◌≡◌, refl, Option, none, some,
  List, [], ◌∷◌, ◌++◌, if◌then◌else◌, ◌==◌,
}
use merita.Prelude.Int.{ℤ, pos}
use merita.Prelude.Float.{one_point, eq, lt}
use merita.Prelude.Attempt.{returned}
use merita.Json.{Json, str, int, arr, nil, cons, obj, end, field, get, lookup, truthy}
use merita.Commitment.{AcceptanceTest, test_commitment}
use merita.Models.{sap_escrow, Verdict, deterministic, Receipt, submitted, settled, claimed}
use merita.Integrity.{Arithmetic, quarantined}
use merita.Integrity.Fingerprint.{Words}
use merita.BrainApi.{volume}
use merita.BrainApi.Volume.{at, moved, defended, volume_counts}
use merita.Orchestrator.Locks.{IsLocked, IsTurnedDown, seen_graph, post_bounty-IsLocked}
use merita.Orchestrator.Closing.{IsOver, locks, closes, run-IsOver}
use merita.Orchestrator.Posting.{Offer, graph_of, post_bounty, run}
use merita.Sidecar.{Sidecar, Post, World}
use merita.Router.{lock_reward, release, released}
use merita.Router.Conservation.{paid_out, escrow_conserves}
use merita.Orchestrator.{Bounty, verify_and_settle}
use merita.Tests.Fixtures.{rt}

abbrev chain : Sidecar
chain posts p = returned (obj (field "signature" (str "sig") (field "escrowId" (str "e1") end)))

abbrev pub int_of : Json → Option ℤ
int_of j = some (pos 1)

abbrev pub start : World
start = record { posts = []; observed = [] }

abbrev receipts : List Receipt
receipts = released "wallet" "worker" "referee" (pos 2000000) (pos 60000) (some "sig")

escrow_conserves_example :
    (p : Post) × ((lock_reward chain int_of "referee" "wallet" "worker"
        (pos 2000000)
        "memo"
        start).1.posts
      ≡ [] ++ p ∷ [])
    × (get "amountLamports" p.body ≡ int (paid_out receipts))
unfolding release lookup
escrow_conserves_example =
    escrow_conserves chain int_of "referee" "wallet" "worker" "memo" (str "e1") (pos 2000000) start
      start receipts refl

abbrev passed : Verdict
passed = record {
  passed = true;
  tier_used = deterministic;
  confidence = one_point;
  reason = "passed";
  reveal_valid = true;
}

abbrev pub says_yes : String → String → String → Option Json → Verdict
says_yes source nonce commitment deliverable = passed

abbrev sealed_test : String → Option AcceptanceTest
sealed_test id = some (record { source = "abc"; nonce = "n" })

abbrev pub asks : String → Option Json → String
asks spec deliverable = "prompt"

abbrev pub bounty : Bounty
bounty = record {
  id = "b1";
  poster_wallet_path = "wallet";
  spec = "spec";
  test_commitment = "a5";
  reward_lamports = pos 2000000;
  state = submitted;
  escrow_id = str "e1";
  claimed_by_pda = some "worker";
  deliverable = none;
  verdict = none;
  receipts = [];
}

abbrev concluded : Bounty
concluded = record bounty { state = settled; verdict = some passed; receipts = receipts }

abbrev finish : World
finish =
    (verify_and_settle rt chain int_of "referee" "wallet" says_yes sealed_test asks bounty start).1

-- a chain that lists one agent, and gives an answer to any other request
abbrev pub market : Sidecar
market posts p =
    if p.path == "/sap/discover"
    then returned
        (obj (field "agents" (arr (cons (obj (field "address" (str "worker") end)) nil)) end))
    else returned (
        obj (
          field "signature" (str "sig") (field "escrowId" (str "e1") (field "data" (obj end) end))))

abbrev pub words : Words
words = record { is_digit = λ c. false; lower = λ c. c ∷ []; hash_set = λ shingles. "7" }

abbrev pub arithmetic : Arithmetic
arithmetic = record {
  ratio = λ a b. one_point;
  add = λ a b. a;
  sub = λ a b. a;
  mul = λ a b. a;
  div = λ a b. a;
  log2 = λ a. a;
}

abbrev pub offer : Offer
offer = record {
  poster_pda = "poster";
  poster_wallet_path = "wallet";
  spec = "spec";
  acceptance_test_source = "abc";
  reward_lamports = pos 2000000;
  required_capability = "ace:search";
}

abbrev pub no_tests : String → Option AcceptanceTest
no_tests id = none

abbrev pub claimed_bounty : Bounty
claimed_bounty = record bounty { state = claimed }

abbrev posted : World
posted =
    (post_bounty rt words arithmetic market int_of "referee" "wallet" says_yes no_tests asks "b1"
      "n" offer start).1

post_bounty-IsLocked_example :
    IsLocked rt words arithmetic market int_of "referee" "wallet" says_yes no_tests asks offer
      (seen_graph rt words arithmetic market int_of "referee" "wallet" says_yes no_tests asks offer
        start)
      claimed_bounty
      start
      posted
    ⊎ IsTurnedDown rt words arithmetic market int_of "referee" "wallet" says_yes no_tests asks
        claimed_bounty start posted
unfolding post_bounty lookup truthy get quarantined lt value_at graph_of update_at test_commitment
    encode
post_bounty-IsLocked_example =
    post_bounty-IsLocked rt words arithmetic market int_of "referee" "wallet" says_yes no_tests asks
      "b1" "n" offer start claimed_bounty refl

abbrev ran_bounty : Bounty
ran_bounty = record concluded { deliverable = some (obj end) }

abbrev ran : World
ran =
    (run rt words arithmetic market int_of "referee" "wallet" says_yes no_tests asks "b1" "n" offer
      "search" (obj end) start).1

run-IsOver_example :
    IsOver rt words arithmetic market int_of "referee" "wallet" says_yes no_tests asks ran_bounty
    × (closes rt words arithmetic market int_of "referee" "wallet" says_yes no_tests asks ran
          + locks rt words arithmetic market int_of "referee" "wallet" says_yes no_tests asks start
        ≡ closes rt words arithmetic market int_of "referee" "wallet" says_yes no_tests asks start
          + locks rt words arithmetic market int_of "referee" "wallet" says_yes no_tests asks ran)
unfolding run truthy quarantined lt value_at graph_of update_at eq test_commitment encode
run-IsOver_example =
    run-IsOver rt words arithmetic market int_of "referee" "wallet" says_yes no_tests asks "b1" "n"
      "search" offer (obj end) start ran_bounty refl

volume_counts_example :
    (at sap_escrow (volume (("b1", ran_bounty) ∷ [])).gross
      ≡ pos (moved sap_escrow (("b1", ran_bounty) ∷ [])))
    × (at sap_escrow (volume (("b1", ran_bounty) ∷ [])).countable
        ≡ pos (defended sap_escrow (("b1", ran_bounty) ∷ [])))
    × (defended sap_escrow (("b1", ran_bounty) ∷ []) ≤ moved sap_escrow (("b1", ran_bounty) ∷ []))
volume_counts_example = volume_counts sap_escrow (("b1", ran_bounty) ∷ []) ((refl, (refl, tt)), tt)
