-- ===== src/HttpDoor.antt =====
-- asp/http_x402.py: the plain-HTTP door. `handle` is `verify_http`: it settles, seals the test that came
-- with the request where none is sealed, runs the referee, logs the verdict and answers.
mod Control
mod Reading
pub mod Lookups
pub mod Serving
pub mod Answers
pub mod Describe
pub use Control.{
  Response, payment_required, failed, verdict, VerdictBody, Outcome, go, stop, fault, Flow, ◌>>=◌,
  pure, answer, raise,
}
pub use Reading.{Request, levels, demo_test, demo_deliverable}
unfoldable pub use Reading.{dig, payment_header, body_of}
use merita.Prelude.{
  ℕ, String, Bool, true, false, not, ◌&&◌, ◌||◌, Option, none, some, List, [], ◌∷◌, if◌then◌else◌,
  is_some, concat,
}
use merita.Prelude.Int.{ℤ, pos}
use merita.Prelude.Float.{Float}
use merita.Prelude.Attempt.{Attempt, returned, raised}
use merita.Json.{Json, null, int, str, obj, Fields, end, get, truthy, or_else}
use merita.Runtime.{Runtime}
use merita.Models.{Verdict}
use merita.Facilitator.{Service, Settlement}
use merita.Store
use merita.Store.{Commitment, Db, Result, ok, value_error, db_error, LoggedVerdict}

-- How the referee's call ended within its 45 seconds.
pub data Judged : Type 0 where
  judged : Verdict → Judged
  timed_out broken : Judged

abbrev is_empty : Fields → Bool
is_empty end = true
is_empty d = false

-- what the request asks to be judged
pub record Job : Type 0 where
  pub task_id : Json
  pub inline_test : Json
  pub deliverable : Json
  pub demonstration : Bool

-- The objects that the door is given: the facilitator, the referee (on the source, the nonce, the
-- commitment and the deliverable), the digest, the price; and what it reads from its surroundings:
-- the clock, the nonces of `secrets`, and whether each of its calls reaches the database.
-- `sql_text` is the text that the database driver stores for a value, `none` where it refuses.
pub record Door : Type 0 where
  pub rt : Runtime
  pub fac : Service
  pub referee : String → String → String → Json → Judged
  pub price : Float
  pub now : ℕ
  pub nonce : ℕ → String
  pub up : ℕ → Bool
  pub real : Float → Float
  pub sql_text : Json → Option (Option String)

module _ (door : Door) where
  abbrev pub terms : Fields
  terms =
      door.fac.requirements "Merita — verify a deliverable against an acceptance test" door.price

  -- `store.get(task_id)`; the key column is TEXT, and a value of another type is an error
  unfoldable pub get_row : ℕ → Json → Flow (Option Commitment)
  get_row n (str t) db = elim (Store.get (door.up n) t db) [
    | ok r ↦ (go r, db)
    | value_error e ↦ (fault, db)
    | db_error ↦ (fault, db)
  ]
  get_row n _ db = (fault, db)

  -- `store.commit` in its `try`: a `ValueError` leaves the other test in place (true), and whatever
  -- else goes wrong is answered at once; the source must be a text to be encoded
  unfoldable pub seal : ℕ → Bool → String → Json → Flow Bool
  seal n charged task_id (str source) db =
      let (r, db') =
        Store.commit door.rt.sha256 (door.up n) (door.nonce n) task_id source "supplied inline"
          db in
      elim r [
        | ok c ↦ (go false, db')
        | value_error e ↦ (go true, db')
        | db_error ↦ (stop (failed 500 "commit_failed" (some charged)), db')
      ]
  seal n charged task_id _ db = (stop (failed 500 "commit_failed" (some charged)), db)

  -- The lookup after a commit: in the `try` a failure of it is answered, and after a `ValueError` it
  -- stands outside the `try`.
  abbrev answer_fault : Bool → Outcome (Option Commitment) × Db → Outcome (Option Commitment) × Db
  answer_fault charged (fault, db) = (stop (failed 500 "commit_failed" (some charged)), db)
  answer_fault charged p = p

  unfoldable pub reread : ℕ → Bool → Bool → Json → Flow (Option Commitment)
  unfolding get_row
  reread n charged true task_id db = get_row n task_id db
  reread n charged false task_id db = answer_fault charged (get_row n task_id db)

  -- the receipt header and the transaction, where there is a receipt
  abbrev receipt_of : Settlement → Option String × Json
  receipt_of s = elim s.receipt [
    | none ↦ (none, null)
    | some d ↦ if is_empty d then (none, null) else (
      some (door.fac.receipt_header d),
      (if truthy (get "transaction" d) then get "transaction" d else get "txHash" d),
    )
  ]

  -- the demonstration stands in where the paid request names no job that can be judged
  unfoldable pub demonstration : Job
  demonstration = record {
    task_id = str (concat ("demo:" ∷ door.rt.str_of (int (pos door.now)) ∷ []));
    inline_test = str demo_test;
    deliverable = demo_deliverable;
    demonstration = true;
  }

  unfoldable pub asked : Request → Job
  unfolding dig body_of
  asked r =
      let body = body_of r in
      record {
        task_id = dig ("task_id" ∷ "taskId" ∷ []) levels body;
        inline_test =
            dig ("acceptance_test" ∷ "acceptanceTest" ∷ "test" ∷ "check" ∷ []) levels body;
        deliverable = dig ("deliverable" ∷ "output" ∷ "result" ∷ []) levels body;
        demonstration = false;
      }

  unfoldable pub choose_job : Job → Flow Job
  unfolding get_row demonstration
  choose_job job =
      if not (truthy job.task_id)
      then pure demonstration
      else if truthy job.inline_test
      then pure job
      else (do row ← get_row 0 job.task_id; pure (if is_some row then job else demonstration))

  abbrev text_of : Json → String
  text_of (str s) = s
  text_of _ = ""

  -- the row for a key that was looked up, so it is a text
  abbrev or_no_commitment : Bool → Option Commitment → Flow Commitment
  or_no_commitment charged none = answer (failed 500 "no_commitment" (some charged))
  or_no_commitment charged (some row) = pure row

  -- the first lookup: an inline test is sealed where no test is
  unfoldable pub row_or_seal : Job → Option Commitment → Flow Commitment
  unfolding seal reread
  row_or_seal job (some row) = pure row
  row_or_seal job none = do
    refused ← seal 2 true (text_of job.task_id) job.inline_test
    again ← reread 3 true refused job.task_id
    or_no_commitment true again

  unfoldable pub first_row : Job → Flow Commitment
  unfolding get_row row_or_seal
  first_row job = do row ← get_row 1 job.task_id; row_or_seal job row

  -- the second lookup, from which the verdict says whether the test was sealed in advance
  unfoldable pub row_or_seal_again : Job → Option Commitment → Flow (Commitment × Bool)
  unfolding seal reread
  row_or_seal_again job (some row) = pure (row, true)
  row_or_seal_again job none =
      if not (truthy job.inline_test)
      then answer (failed 200 "no_test_supplied" (some false))
      else (do
        refused ← seal 5 false (text_of job.task_id) job.inline_test
        again ← reread 6 false refused job.task_id
        row ← or_no_commitment false again
        pure (row, refused))

  unfoldable pub second_row : Job → Flow (Commitment × Bool)
  unfolding get_row row_or_seal_again
  second_row job = do row ← get_row 4 job.task_id; row_or_seal_again job row

  -- the referee's verdict, within the time that the door gives it
  abbrev heard : Judged → Flow Verdict
  heard (judged v) = pure v
  heard timed_out = answer (failed 503 "verify_timeout" (some true))
  heard broken = raise

  unfoldable pub judge : Commitment → Json → Flow Verdict
  judge row deliverable = heard (door.referee row.source row.nonce row.commitment deliverable)

  -- the public log, best-effort: a value that the driver refuses writes no row
  abbrev write_verdict :
      Job → Commitment → Verdict → Option (Option String) → Option (Option String) → Flow Bool
  write_verdict job row v (some tx_hash) (some amount) db = (
    go true,
    Store.record_verdict door.real (door.up 7)
        (record {
          task_id = text_of job.task_id;
          passed = v.passed;
          confidence = v.confidence;
          reason = v.reason;
          commitment = row.commitment;
          tx_hash = tx_hash;
          amount = amount;
          surface = "http";
          created_at = door.now;
        })
        db,
  )
  write_verdict job row v _ _ db = (go false, db)

  unfoldable pub log_verdict : Job → Commitment → Verdict → Json → Flow Bool
  log_verdict job row v tx =
      write_verdict job row v (door.sql_text tx) (door.sql_text (get "amount" terms))

  abbrev result_of : Settlement → Job → Commitment × Bool → Verdict → VerdictBody
  result_of settled job (row, precommitted) v = record {
    task_id = text_of job.task_id;
    passed = v.passed;
    confidence = v.confidence;
    reason = v.reason;
    reveal_valid = v.reveal_valid;
    commitment = row.commitment;
    settle_escrow = v.passed;
    precommitted = precommitted;
    charged = true;
    tx_hash = (receipt_of settled).1;
    payment_receipt = (receipt_of settled).0;
    demonstration = job.demonstration;
  }

  -- the referee's run on the row, the log, and the result
  unfoldable pub deliver : Settlement → Job → Commitment × Bool → Flow VerdictBody
  unfolding judge log_verdict
  deliver settled job (row, precommitted) = do
    v ← judge row job.deliverable
    logged ← log_verdict job row v (receipt_of settled).1
    pure (result_of settled job (row, precommitted) v)

  -- after the payment is honoured
  unfoldable pub serve : Settlement → Request → Flow VerdictBody
  unfolding choose_job first_row second_row deliver
  serve settled request = do
    job ← choose_job (asked request)
    first ← first_row job
    sealed ← second_row job
    deliver settled job sealed

  -- `verify_http` round a flow: an exception is an answer too
  abbrev finish : Outcome VerdictBody × Db → Response × Db
  finish (go v, db) = (verdict v, db)
  finish (stop r, db) = (r, db)
  finish (fault, db) = (failed 500 "internal_error" none, db)

  unfoldable pub handle : Request → Db → Response × Db
  handle request db = elim (payment_header request) [
    | none ↦ (payment_required terms none, db)
    | some x ↦ elim (door.fac.settle_or_accept x terms) [
      | raised ↦ (failed 500 "internal_error" none, db)
      | returned settled ↦
          if settled.ok
          then finish (serve settled request db)
          else (payment_required terms (some settled.reason), db)
    ]
  ]
