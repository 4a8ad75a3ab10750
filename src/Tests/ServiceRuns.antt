-- ===== src/Tests/ServiceRuns.antt =====
-- Runs of the brain that fail behind the lock, and of its routes.
use merita.Prelude.{◌+◌, ◌≡◌, refl, ◌==◌, if◌then◌else◌, value_at, update_at, encode}
use merita.Prelude.Float.{lt}
use merita.Prelude.Attempt.{raised}
use merita.Json.{obj, end, get, lookup, truthy}
use merita.Commitment.{test_commitment}
use merita.Integrity.{quarantined}
use merita.Sidecar.{Sidecar, World}
use merita.Orchestrator.{execute}
use merita.Orchestrator.Posting.{graph_of, post_bounty, run}
use merita.Orchestrator.Closing.{locks, closes}
use merita.Orchestrator.Stranded.{failed_work_strands_the_escrow}
use merita.Tests.Fixtures.{rt}
use merita.Tests.BrainRuns.{
  market, words, arithmetic, offer, says_yes, no_tests, asks, int_of, start, claimed_bounty,
}

-- the chain of `market`, where the paid service does not answer
abbrev broken_market : Sidecar
broken_market posts p = if p.path == "/ace/call" then raised else market posts p

abbrev after : World
after =
    (run rt words arithmetic broken_market int_of "referee" "wallet" says_yes no_tests asks "b1" "n"
      offer "search" (obj end) start).1

failed_work_strands_the_escrow_example :
    ((run rt words arithmetic broken_market int_of "referee" "wallet" says_yes no_tests asks "b1"
        "n" offer "search"
        (obj end)
        start).0
      ≡ raised)
    × (locks rt words arithmetic broken_market int_of "referee" "wallet" says_yes no_tests asks
          after
        ≡ locks rt words arithmetic broken_market int_of "referee" "wallet" says_yes no_tests asks
            start
          + 1)
    × (closes rt words arithmetic broken_market int_of "referee" "wallet" says_yes no_tests asks
          after
        ≡ closes rt words arithmetic broken_market int_of "referee" "wallet" says_yes no_tests asks
            start)
unfolding post_bounty lookup truthy get quarantined lt value_at graph_of update_at test_commitment
    encode execute
failed_work_strands_the_escrow_example =
    failed_work_strands_the_escrow rt words arithmetic broken_market int_of "referee" "wallet"
      says_yes no_tests asks "b1" "n" "search" offer (obj end) start claimed_bounty refl refl refl
