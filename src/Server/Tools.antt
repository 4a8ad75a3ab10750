-- ===== src/Server/Tools.antt =====
-- The three tools of asp/server.py and the hook `_precheck` that the paywall calls before it charges.
use merita.Prelude.{
  String, Bool, true, false, not, Option, none, some, List, [], ◌∷◌, if◌then◌else◌, concat, ◌==◌,
}
use merita.Prelude.Int.{pos}
use merita.Prelude.Float.{fin}
use merita.Prelude.Attempt.{Attempt, returned, raised}
use merita.Json.{Json, null, str, obj, Fields, end, get, truthy}
use merita.Models.{Verdict}
use merita.Store
use merita.Store.{Commitment, Db, Result, ok, value_error, db_error}
use merita.Paywall.{Payment, Scope, Tariff, Action, decide}
use merita.Integrity.{Report, Signals, assess, quarantined, leaderboard_eligible, observe_spec}
use merita.Server.State.{
  Site, Host, Judgement, Screening, Response, failed, crashed, committed, verdict, screened,
}

abbrev nothing_in : Fields → Bool
nothing_in end = true
nothing_in d = false

-- `PAID_TOOLS`, whose prices are 0.02 and 0.01
abbrev pub paid_tools : List (String × Tariff)
paid_tools =
    (
      "verify_deliverable",
      record {
        price = fin (pos 5764607523034235) 58;
        description = "Merita — verify a deliverable against a committed test";
      },
    )
    ∷ (
      "assess_integrity",
      record {
        price = fin (pos 5764607523034235) 59;
        description = "Merita — collusion / wash-trade screen";
      },
    )
    ∷ []

module _ (h : Host) where
  -- `_settle`, on `scope["merita_payment"]`: the receipt that the paywall captured
  unfoldable pub settle_receipt : Option Payment → Option String
  settle_receipt none = none
  settle_receipt (some pay) = elim pay.receipt [
    | none ↦ none
    | some d ↦ if nothing_in d then none else some (h.fac.receipt_header d)
  ]

  -- after the commit; a tool that raises is answered by the framework
  unfoldable pub answer_commit : String → String → Result String × Db → Site → Response × Site
  unfolding observe_spec
  answer_commit task_id spec (ok c, db) site = (
    committed task_id c,
    record site { ledger = db; graph = observe_spec h.words task_id spec site.graph },
  )
  answer_commit task_id spec (value_error e, db) site = (failed 200 e, record site { ledger = db })
  answer_commit task_id spec (db_error, db) site = (crashed, record site { ledger = db })

  unfoldable pub commit_acceptance_test : String → String → String → Site → Response × Site
  unfolding answer_commit
  commit_acceptance_test task_id acceptance_test spec site =
      answer_commit task_id spec
        (Store.commit h.rt.sha256 (h.up 0) (h.nonce 0) task_id acceptance_test spec site.ledger)
        site

  -- what is written to the public log
  abbrev pub log_line :
      String → Commitment → Verdict → Option String → Option String → String → Store.LoggedVerdict
  log_line key row v tx_hash amount surface = record {
    task_id = key;
    passed = v.passed;
    confidence = v.confidence;
    reason = v.reason;
    commitment = row.commitment;
    tx_hash = tx_hash;
    amount = amount;
    surface = surface;
    created_at = h.now;
  }

  abbrev pub judgement_of : String → Commitment → Verdict → Option String → Judgement
  judgement_of key row v receipt = record {
    key = key;
    passed = v.passed;
    confidence = v.confidence;
    reason = v.reason;
    reveal_valid = v.reveal_valid;
    commitment = row.commitment;
    payment_receipt = receipt;
  }

  -- `rc.get("transaction") or rc.get("txHash")` of the payment's receipt
  abbrev transaction_of : Option Fields → Json
  transaction_of none = null
  transaction_of (some d) =
      if truthy (get "transaction" d) then get "transaction" d else get "txHash" d

  abbrev pub receipt_tx : Option Payment → Json
  receipt_tx none = null
  receipt_tx (some pay) = transaction_of pay.receipt

  abbrev pub amount_of : Option Payment → Json
  amount_of none = null
  amount_of (some pay) = get "amount" pay.reqs

  -- a value that the driver refuses writes no row
  abbrev pub log_if :
      String → Commitment → Verdict → Option (Option String) → Option (Option String) → Db → Db
  log_if key row v (some tx_hash) (some amount) db =
      Store.record_verdict h.real (h.up 1) (log_line key row v tx_hash amount "mcp") db
  log_if key row v _ _ db = db

  unfoldable pub answer_verdict :
      String → Option Payment → Commitment → Attempt Verdict → Site → Response × Site
  unfolding settle_receipt
  answer_verdict task_id pay row raised site = (crashed, site)
  answer_verdict task_id pay row (returned v) site = (
    verdict (judgement_of task_id row v (settle_receipt pay)),
    record site {
      ledger =
          log_if task_id row v (h.sql_text (receipt_tx pay)) (h.sql_text (amount_of pay))
            site.ledger;
    },
  )

  unfoldable pub judge_found :
      String → Json → Option Payment → Result (Option Commitment) → Site → Response × Site
  unfolding answer_verdict
  judge_found task_id deliverable pay (ok none) site =
      (failed 200 "no committed acceptance test for this task_id", site)
  judge_found task_id deliverable pay (ok (some row)) site =
      answer_verdict task_id pay row (h.referee row.source row.nonce row.commitment deliverable)
        site
  judge_found task_id deliverable pay (value_error e) site = (crashed, site)
  judge_found task_id deliverable pay db_error site = (crashed, site)

  unfoldable pub verify_deliverable : String → Fields → Option Payment → Site → Response × Site
  unfolding judge_found
  verify_deliverable task_id deliverable pay site =
      judge_found task_id (obj deliverable) pay (Store.get (h.up 0) task_id site.ledger) site

  abbrev round_signals : Signals → Signals
  round_signals s = record {
    pairing_entropy = h.round3 s.pairing_entropy;
    cycle_conservation = h.round3 s.cycle_conservation;
    spec_diversity = h.round3 s.spec_diversity;
    funding_independence = h.round3 s.funding_independence;
  }

  unfoldable pub recommendation : Report → String
  unfolding quarantined leaderboard_eligible
  recommendation r =
      if quarantined r
      then "DO NOT FUND — this looks like collusion or a wash loop"
      else if not (leaderboard_eligible r)
      then "proceed with caution — some signals are weak"
      else "clean"

  abbrev pub screening_of : Report → Screening
  screening_of r = record {
    integrity_score = h.round3 r.score;
    signals = round_signals r.signals;
    flags = r.flags;
    recommendation = recommendation r;
  }

  unfoldable pub assess_integrity : String → String → Site → Response × Site
  unfolding assess recommendation
  assess_integrity counterparty my_address site =
      (screened (screening_of (assess h.arithmetic my_address counterparty site.graph)), site)

  -- `_precheck`: it raises where `args` is no dictionary or the store fails
  abbrev pub no_test : Json → String
  no_test task_id = concat (
      "no committed acceptance test for task '"
      ∷ h.rt.str_of task_id
      ∷ "'. Call commit_acceptance_test first (it's free). No payment was taken."
      ∷ [])

  abbrev pub check_row : Json → Result (Option Commitment) → Attempt (Bool × String)
  check_row task_id (ok none) = returned (false, no_test task_id)
  check_row task_id (ok (some row)) = returned (true, "")
  check_row task_id (value_error e) = raised
  check_row task_id db_error = raised

  -- the key column is TEXT, and a value of another type is an error
  unfoldable pub check_task : Site → Json → Attempt (Bool × String)
  check_task site (str t) =
      if t == ""
      then returned (false, "task_id is required")
      else check_row (str t) (Store.get (h.up 0) t site.ledger)
  check_task site other = if truthy other then raised else returned (false, "task_id is required")

  abbrev pub args_of : Json → Option Fields
  args_of (obj d) = some d
  args_of other = if truthy other then none else some end

  unfoldable pub precheck : Site → String → Json → Attempt (Bool × String)
  unfolding check_task
  precheck site tool args =
      if tool == "verify_deliverable"
      then elim (args_of args) [ none ↦ raised | some d ↦ check_task site (get "task_id" d) ]
      else returned (true, "")

  -- the paywall in front of the tools
  unfoldable pub gate : Site → Scope → Option Json → Action
  unfolding precheck
  gate site scope body = decide h.fac paid_tools (some (precheck site)) scope body
