-- ===== src/BrainApi.antt =====
-- brain/merita/main.py: the routes of the brain, over `STATE`, the bounties that were run, in their order.
pub mod Volume
pub mod Service
pub mod Kept
use merita.Prelude.{
  ℕ, ◌+◌, String, Bool, true, false, ◌&&◌, Option, none, some, List, [], ◌∷◌, ◌==◌, if◌then◌else◌,
  value_at, update_at,
}
use merita.Prelude.Int.{ℤ, pos, ◌+ℤ◌}
use merita.Prelude.Attempt.{Attempt, returned, raised}
use merita.Models.{
  Rail, sap_escrow, ace_x402, BountyState, settled, quarantined, Receipt, is_countable,
}
use merita.Orchestrator.{Bounty}

abbrev pub Bounties : Type 0
Bounties = List (String × Bounty)

-- a status with a message, or a bounty
pub data Response : Type 0 where
  failed : ℕ → String → Response
  found : Bounty → Response

-- `run`, on what the orchestrator's run gave
unfoldable pub run_route : Attempt Bounty → String → Bounties → Response × Bounties
run_route raised why state = (failed 502 why, state)
run_route (returned b) why state = (found b, update_at (λ old. b) b.id state)

unfoldable pub get_bounty : String → Bounties → Response
get_bounty bid state = elim (value_at bid state) [
  | none ↦ failed 404 "no such bounty"
  | some b ↦ found b
]

-- the two counters of a rail: {r.value: 0 for r in Rail}
pub record ByRail : Type 0 where
  pub sap : ℤ
  pub ace : ℤ

pub record Board : Type 0 where
  pub gross : ByRail
  pub countable : ByRail
  pub quarantined_jobs : ℕ
  pub settled_jobs : ℕ

-- `counter[rail] += n`
unfoldable pub add_on : Rail → ℤ → ByRail → ByRail
add_on sap_escrow n c = record c { sap = c.sap +ℤ n }
add_on ace_x402 n c = record c { ace = c.ace +ℤ n }

abbrev pub is_settled : BountyState → Bool
is_settled settled = true
is_settled other = false

abbrev pub is_quarantined : BountyState → Bool
is_quarantined quarantined = true
is_quarantined other = false

-- one receipt of a bounty
unfoldable pub count_receipt : Bool → Receipt → Board → Board
unfolding add_on is_countable
count_receipt from_settled r board = record board {
  gross = add_on r.rail r.amount_atomic board.gross;
  countable =
      if is_countable r && from_settled
      then add_on r.rail r.amount_atomic board.countable
      else board.countable;
}

unfoldable pub count_receipts : Bool → List Receipt → Board → Board
unfolding count_receipt
count_receipts from_settled [] board = board
count_receipts from_settled (r ∷ rs) board =
    count_receipts from_settled rs (count_receipt from_settled r board)

unfoldable pub count_bounty : Bounty → Board → Board
unfolding count_receipts
count_bounty b board = count_receipts (is_settled b.state) b.receipts (record board {
  quarantined_jobs = board.quarantined_jobs + (if is_quarantined b.state then 1 else 0);
  settled_jobs = board.settled_jobs + (if is_settled b.state then 1 else 0);
})

unfoldable pub count_all : Bounties → Board → Board
unfolding count_bounty
count_all [] board = board
count_all ((bid, b) ∷ rest) board = count_all rest (count_bounty b board)

abbrev pub nothing : ByRail
nothing = record { sap = pos 0; ace = pos 0 }

unfoldable pub volume : Bounties → Board
unfolding count_all
volume state =
    count_all state
      (record { gross = nothing; countable = nothing; quarantined_jobs = 0; settled_jobs = 0 })
