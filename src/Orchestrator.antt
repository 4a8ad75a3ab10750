-- ===== src/Orchestrator.antt =====
-- brain/merita/orchestrator.py: `execute`, `verify_and_settle` and `_seal`, after a bounty is claimed.
-- The chain seam and the verifier are parameters; `prompt` is the text that tier 2 asks with.
pub mod Requests
pub mod Settlement
pub mod Candidates
pub mod Posting
pub mod Locks
pub mod Quiet
pub mod Closing
pub mod Stranded
use merita.Prelude.{
  String, Bool, true, false, not, ◌&&◌, Option, none, some, List, [], ◌∷◌, ◌++◌, map, if◌then◌else◌,
  concat, take_text,
}
use merita.Prelude.Int.{ℤ, pos}
use merita.Prelude.Float
use merita.Prelude.Float.{zero_point}
use merita.Prelude.Attempt.{Attempt, returned, raised}
use merita.Json.{
  Json, null, bool, int, str, arr, obj, Items, nil, cons, Fields, end, field, or_else,
}
use merita.Runtime.{Runtime}
use merita.Commitment.{AcceptanceTest}
use merita.Models.{BountyState, submitted, settled, failed, Verdict, Receipt}
use merita.Referee.Tier2.{Call, unavailable, answered, adjudicate}
use merita.Router.{release, refund, pay_ace}
use merita.Sidecar.{Sidecar, Work, ◌>>=◌, pure, lift, post, attempt, observe, receipt_seen}

-- the fields of `Bounty` that a claimed bounty's life reads and writes
pub record Bounty : Type 0 where
  pub id : String
  pub poster_wallet_path : String
  pub spec : String
  pub test_commitment : String
  pub reward_lamports : ℤ
  pub state : BountyState
  pub escrow_id : Json
  pub claimed_by_pda : Option String
  pub deliverable : Option Json
  pub verdict : Option Verdict
  pub receipts : List Receipt

abbrev text_of : Option String → String
text_of none = ""
text_of (some s) = s

abbrev json_of : Option String → Json
json_of none = null
json_of (some s) = str s

abbrev items : List String → Items
items [] = nil
items (s ∷ rest) = cons (str s) (items rest)

-- `receipts.append` and `graph.observe`, for each receipt
unfoldable pub book : List Receipt → Bounty → Work Bounty
unfolding observe
book [] b = pure b
book (r ∷ rs) b = do
  seen ← observe (receipt_seen r)
  book rs (record b { receipts = b.receipts ++ r ∷ [] })

abbrev opt_list : Option Receipt → List Receipt
opt_list none = []
opt_list (some r) = r ∷ []

-- a result that is a dictionary is the deliverable itself
abbrev as_deliverable : Json → Json
as_deliverable (obj d) = obj d
as_deliverable other = obj (field "result" other end)

module _ (rt : Runtime) (sidecar : Sidecar) (int_of : Json → Option ℤ)
    (referee_pda referee_wallet : String)
    (referee : String → String → String → Option Json → Verdict)
    (tests : String → Option AcceptanceTest) (prompt : String → Option Json → String) where
  unfoldable pub execute : Bounty → String → Json → Work Bounty
  unfolding pay_ace book
  execute b service args = do
    (result, receipt) ← pay_ace sidecar int_of referee_pda service args (text_of b.claimed_by_pda)
    b' ← book (opt_list receipt) b
    pure (record b' { deliverable = some (as_deliverable result); state = submitted })

  -- `_seal`, whose every exception is logged and dropped
  unfoldable pub seal : Bounty → List String → Work (Attempt Json)
  unfolding post
  seal b entries = attempt (
      post sidecar "/sap/audit/seal" (
        field "walletPath" (str referee_wallet) (
          field "sessionKey" (str (concat ("merita:" ∷ b.id ∷ [])))
            (field "entries" (arr (items entries)) end))))

  -- the model call of tier 2, whose exceptions are caught
  unfoldable pub consult : Bounty → Work Call
  unfolding pay_ace
  consult b = do
    reply ← attempt (
        pay_ace sidecar int_of referee_pda "openai.chat.completions"
          (obj (
            field "model" (str "gpt-4o-mini") (
              field "messages"
                (arr (
                  cons
                    (obj (
                      field "role" (str "user")
                        (field "content" (str (prompt b.spec b.deliverable)) end)))
                    nil))
                end)))
          (text_of b.claimed_by_pda))
    pure
        (elim reply [ raised ↦ unavailable | returned (result, receipt) ↦ answered result receipt ])

  -- tier 1 said that it does not know
  abbrev unsure : Verdict → Bool
  unsure v = Float.eq v.confidence zero_point && v.reveal_valid

  unfoldable pub escalate : Bounty → Work (Verdict × Bounty)
  unfolding consult book adjudicate
  escalate b = do
    reply ← consult b
    b' ← book (opt_list (adjudicate rt reply).1) b
    pure ((adjudicate rt reply).0, b')

  unfoldable pub rule : Bounty → Verdict → Work (Verdict × Bounty)
  unfolding escalate
  rule b v = if unsure v then escalate b else pure (v, b)

  -- the escrow is released to the worker, and to the referee its fee
  unfoldable pub settle_escrow : Bounty → Verdict → Work Bounty
  unfolding release book
  settle_escrow b v = do
    rs ←
        release sidecar int_of referee_pda b.poster_wallet_path (or_else b.escrow_id (str ""))
          (text_of b.claimed_by_pda) b.reward_lamports
    b' ← book rs b
    pure (record b' { state = settled; verdict = some v })

  unfoldable pub withdraw_escrow : Bounty → Verdict → Work Bounty
  unfolding refund
  withdraw_escrow b v = do
    done ← refund sidecar int_of referee_pda b.poster_wallet_path (or_else b.escrow_id (str ""))
    pure (record b { state = failed; verdict = some v })

  unfoldable pub pay_out : Bounty → Verdict → Work Bounty
  unfolding settle_escrow withdraw_escrow
  pay_out b v = if v.passed then settle_escrow b v else withdraw_escrow b v

  abbrev feedback_body : Bounty → Verdict → Fields
  feedback_body b v = field "walletPath" (str referee_wallet) (
      field "targetAgentPda" (json_of b.claimed_by_pda) (
        field "rating" (int (if v.passed then pos 5 else pos 1)) (
          field "comment"
            (str (
              take_text 180 (
                concat
                  ((if v.passed then "verified: " else "failed verification: ") ∷ v.reason ∷ []))))
            end)))

  abbrev receipt_line : Receipt → String
  receipt_line r = concat (
      "receipt "
      ∷ r.leg
      ∷ " "
      ∷ rt.str_of (int r.amount_atomic)
      ∷ r.token
      ∷ " tx="
      ∷ rt.str_of (json_of r.tx)
      ∷ [])

  abbrev entries : Bounty → Verdict → List String
  entries b v =
      concat ("spec: " ∷ take_text 120 b.spec ∷ [])
      ∷ concat ("commitment: " ∷ b.test_commitment ∷ [])
      ∷ concat ("reveal_valid: " ∷ rt.str_of (bool v.reveal_valid) ∷ [])
      ∷ concat (
          "verdict: "
          ∷ (if v.passed then "PASS" else "FAIL")
          ∷ " ("
          ∷ take_text 100 v.reason
          ∷ ")"
          ∷ [])
      ∷ map receipt_line b.receipts

  -- on-chain reputation, for both outcomes, and the trace
  unfoldable pub publish : Bounty → Verdict → Work Bounty
  unfolding post seal
  publish b v = do
    posted ← post sidecar "/sap/feedback" (feedback_body b v)
    sealed ← seal b (entries b v)
    pure b

  -- the sealed test of the bounty, or a `KeyError`
  abbrev test_of : Option AcceptanceTest → Attempt AcceptanceTest
  test_of none = raised
  test_of (some t) = returned t

  unfoldable pub verify_and_settle : Bounty → Work Bounty
  unfolding rule pay_out publish
  verify_and_settle b = do
    test ← lift (test_of (tests b.id))
    (v, b') ← rule b (referee test.source test.nonce b.test_commitment b.deliverable)
    paid ← pay_out b' v
    publish paid v
