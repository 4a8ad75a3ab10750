-- ===== src/A2aWorker/Verifier.antt =====
-- asp/a2a_worker.py with asp/server.py behind it: the worker's request goes to /internal/verify, and the
-- answer comes back as JSON, as it was sent.
use merita.Prelude.{
  ℕ, String, true, ◌≡◌, refl, inl, inr, none, some, ◌==◌, arith, Bool-cases, if◌then◌else◌, eqb,
}
use merita.Prelude.Attempt.{returned}
use merita.Json.{Json, null, bool, float, str, obj, Fields, end, field, get, truthy}
use merita.Models.{Verdict}
use merita.Store.{Commitment, find}
use merita.Server
use merita.Server.{Site, Host, Judgement, Response, failed, verdict, internal_verify, judgement_of}
use merita.Server.Internal.{IsAnswered, internal_verify-IsAnswered}
use merita.A2aWorker.{Worker, Reply, replied, read_reply, build_verdict_document}

-- the body of the route's verdict
abbrev pub verdict_body : Judgement → Fields
verdict_body j = field "task_id" (str j.key) (
    field "commitment" (str j.commitment) (
      field "passed" (bool j.passed) (
        field "confidence" (float j.confidence)
          (field "reason" (str j.reason) (field "reveal_valid" (bool j.reveal_valid) end)))))

abbrev error_body : ℕ → String → Fields
error_body status e =
    if eqb status 404
    then field "error" (str e) (field "verdict" null end)
    else field "error" (str e) end

-- What the worker reads of the route's answer. It gives no other than these; an exception is the
-- framework's 500, whose body is no JSON.
unfoldable pub reply_of : Response → Reply
reply_of (verdict j) = replied 200 (some (obj (verdict_body j)))
reply_of (failed status e) = replied status (some (obj (error_body status e)))
reply_of other = replied 500 none

-- the POST of the worker, with its token
abbrev pub request_of : String → Fields → Server.Request
request_of token body = record { method = "POST"; worker_token = token; body = some (obj body) }

-- The worker whose requests the server answers.
abbrev pub connect : Worker → Host → Site → Worker
connect worker h site = record worker {
  server = λ body. reply_of (internal_verify h (request_of worker.worker_token body) site).0;
}

module _ (worker : Worker) (h : Host) (site : Site) where
  -- The referee passed the deliverable on the test that the server holds for the task, and the document
  -- has the test's hash.
  abbrev pub IsPassed : Json → Json → Fields → Type 0
  IsPassed task_id deliverable doc =
      (t : String) × (task_id ≡ str t)
      × (row : Commitment) × (find t site.ledger.commitments ≡ some row)
      × (v : Verdict) × (h.referee row.source row.nonce row.commitment deliverable ≡ returned v)
      × (v.passed ≡ true)
      × (get "commitment" doc ≡ str row.commitment)

  read-IsPassed :
      (job_id task_id deliverable : Json) (doc : Fields) (r : Response)
      → ((j : Judgement) → r ≡ verdict j → IsAnswered h site task_id deliverable j)
      → read_reply worker job_id task_id (reply_of r) ≡ returned doc
      → get "settle_escrow" doc ≡ bool true
      → IsPassed task_id deliverable doc
  unfolding read_reply reply_of get truthy
  read-IsPassed job_id task_id deliverable doc (verdict j) answered e settles =
      let (t, names, (row, found, v, said, is)) = answered j refl in
      (
        t,
        names,
        row,
        found,
        v,
        said,
        ground (arith, e, settles, is),
        ground (arith, e, settles, is),
      )
  read-IsPassed job_id task_id deliverable doc (failed status text) answered e settles =
      elim (Bool-cases (eqb status 404)) [
        | inl missing ↦ ground (arith, rw missing at e, settles)
        | inr other ↦ elim (Bool-cases (eqb status 200)) [
          | inl fine ↦ ground (arith, rw (other, fine) at e, settles)
          | inr wrong ↦ ground (arith, rw (other, wrong) at e)
        ]
      ]
  read-IsPassed job_id task_id deliverable doc other answered e settles = cc

  -- The document tells the wallet's owner to settle the escrow only where the referee passed the
  -- deliverable on the committed test. Whatever the server's state is and whatever fails in it, a
  -- document with `settle_escrow` true is about a task whose row the server holds, on which the referee
  -- passed this deliverable; and it shows the row's hash.
  pub settles_only_on_a_pass :
      (job_id task_id deliverable : Json) (doc : Fields)
      → build_verdict_document (connect worker h site) job_id task_id deliverable ≡ returned doc
      → get "settle_escrow" doc ≡ bool true
      → IsPassed task_id deliverable doc
  unfolding build_verdict_document get
  settles_only_on_a_pass job_id task_id deliverable doc e settles =
      elim (Bool-cases (truthy task_id)) [
        | inl named ↦ elim (Bool-cases (worker.worker_token == "")) [
          | inl unset ↦ absurd (ground (arith, rw (named, unset) at e))
          | inr token ↦
              read-IsPassed job_id task_id deliverable doc (internal_verify h request site).0
                (λ j k. internal_verify-IsAnswered h request body site refl j k)
                (rw (named, token) at e) settles
        ]
        | inr unnamed ↦ ground (arith, rw unnamed at e, settles)
      ]
    where
      body : Fields
      body = field "task_id" task_id (field "deliverable" deliverable end)

      request : Server.Request
      request = request_of worker.worker_token body
