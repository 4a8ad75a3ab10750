-- ===== src/A2aWorker/Progress.antt =====
-- asp/a2a_worker.py gets through: a funded job with a committed test is delivered.
use merita.Prelude.{
  String, Bool, true, false, ◌≡◌, ◌≢◌, refl, ◌∙◌, none, some, List, [], ◌∷◌, ◌++◌, ◌==◌, is_ascii,
}
use merita.Prelude.Attempt.{returned}
use merita.Json.{Json, bool, str, Fields, end, field, get, truthy}
use merita.Models.{Verdict}
use merita.Store.{Commitment, find}
use merita.Server.{Site, Host, judgement_of}
use merita.Server.Internal.{internal_verify-judges, ne_test}
use merita.A2aWorker.{
  Worker, CliResult, Command, Run, ◌>>=◌, >>=-returned, lift, or_raise, run_command, read_reply,
  build_verdict_document, verdict_document, deliver_command, gate_check, task_status, read_status,
  deliver, process,
}
use merita.A2aWorker.Delivery.{session_check, status_of, IsFunded}
use merita.A2aWorker.Verifier.{connect, request_of, verdict_body, reply_of}

-- The command is accepted by the wallet's command line.
abbrev pub Accepts : Worker → List Command → Command → Type 0
Accepts worker log c = (r : CliResult) × (worker.cli log c ≡ returned r) × (r.ok ≡ true)

module _ (worker : Worker) where
  gate_check-passes :
      (log : List Command)
      → Accepts worker log (session_check worker)
      → gate_check worker log ≡ (returned true, log ++ session_check worker ∷ [])
  unfolding gate_check run_command
  gate_check-passes log (r, said, fine) = rw (said, fine) refl

  task_status-reads :
      (job status : String) (log : List Command) (r : CliResult)
      → worker.cli log (status_of worker job) ≡ returned r
      → r.ok ≡ true
      → read_status worker r.stdout ≡ returned status
      → task_status worker (str job) log ≡ (returned status, log ++ status_of worker job ∷ [])
  unfolding task_status run_command
  task_status-reads job status log r said fine reads = rw (said, fine, reads) refl

  deliver-sends :
      (job : String) (doc : Fields) (log : List Command)
      → Accepts worker log (deliver_command worker job doc)
      → deliver worker (str job) doc false log
        ≡ (returned true, log ++ deliver_command worker job doc ∷ [])
  unfolding deliver run_command
  deliver-sends job doc log (r, said, fine) = rw (said, fine) refl

  process-delivers :
      (job : String) (task_id deliverable : Json) (doc : Fields) (log : List Command)
      (s : CliResult)
      → Accepts worker log (session_check worker)
      → worker.cli (log ++ session_check worker ∷ []) (status_of worker job) ≡ returned s
      → s.ok ≡ true
      → read_status worker s.stdout ≡ returned "accepted"
      → build_verdict_document worker (str job) task_id deliverable ≡ returned doc
      → Accepts worker
          ((log ++ session_check worker ∷ []) ++ status_of worker job ∷ [])
          (deliver_command worker job doc)
      → process worker (str job) task_id deliverable false log ≡ (
        returned true,
        ((log ++ session_check worker ∷ []) ++ status_of worker job ∷ [])
            ++ deliver_command worker job doc ∷ [],
      )
  unfolding process
  process-delivers job task_id deliverable doc log s live said fine reads ruled sent =
      >>=-returned (gate_check worker) (λ live. task_status worker (str job) >>= gated) true log
        log2 (gate_check-passes log live)
      ∙ >>=-returned (task_status worker (str job)) gated "accepted" log2 log3
          (task_status-reads job "accepted" log2 s said fine reads)
      ∙ rw (ruled, ◌>>=◌) (deliver-sends job doc log3 sent)
    where
      log2 : List Command
      log2 = log ++ session_check worker ∷ []

      log3 : List Command
      log3 = log2 ++ status_of worker job ∷ []

      gated : String → Run Bool
      gated status = or_raise worker (status == "accepted") >>= (λ accepted.
          lift (build_verdict_document worker (str job) task_id deliverable)
          >>= (λ doc'. deliver worker (str job) doc' false))

module _ (worker : Worker) (h : Host) (site : Site) where
  -- the document on a verdict of the referee
  abbrev pub ruling : String → String → Commitment → Verdict → Fields
  ruling job t row v =
      verdict_document worker (str job) (str t) (verdict_body (judgement_of h t row v none))

  -- the commands before the delivery
  abbrev pub checked : String → List Command → List Command
  checked job log = (log ++ session_check worker ∷ []) ++ status_of worker job ∷ []

  document-ruling :
      (job t : String) (deliverable : Json) (row : Commitment) (v : Verdict)
      → h.worker_token ≢ ""
      → is_ascii h.worker_token ≡ true
      → worker.worker_token ≡ h.worker_token
      → t ≢ ""
      → h.up 0 ≡ true
      → find t site.ledger.commitments ≡ some row
      → h.referee row.source row.nonce row.commitment deliverable ≡ returned v
      → build_verdict_document (connect worker h site) (str job) (str t) deliverable
        ≡ returned (ruling job t row v)
  unfolding build_verdict_document read_reply reply_of get truthy
  document-ruling job t deliverable row v set plain same given up found said =
      let body : Fields = field "task_id" (str t) (field "deliverable" deliverable end) in
      rw
        (
          ne_test t "" given,
          same,
          ne_test h.worker_token "" set,
          internal_verify-judges h (request_of h.worker_token body) body site refl t row v set plain
              refl refl given up found said,
        )
        refl

  -- A funded job is delivered. If the wallet's session is live and the job reads `accepted`, the worker
  -- has the server's token, the server's database answers and holds a test for the task, the referee
  -- gives its verdict, and the wallet accepts the delivery, then `process` returns, the last of its
  -- three commands delivers, and the document of the delivery tells to settle the escrow exactly if the
  -- verdict is a pass.
  pub funded_job_is_delivered :
      (job t : String) (deliverable : Json) (row : Commitment) (v : Verdict) (log : List Command)
      → h.worker_token ≢ ""
      → is_ascii h.worker_token ≡ true
      → worker.worker_token ≡ h.worker_token
      → t ≢ ""
      → h.up 0 ≡ true
      → find t site.ledger.commitments ≡ some row
      → h.referee row.source row.nonce row.commitment deliverable ≡ returned v
      → IsFunded worker (str job) log
      → Accepts worker (checked job log) (deliver_command worker job (ruling job t row v))
      → (process (connect worker h site) (str job) (str t) deliverable false log ≡ (
        returned true,
        checked job log ++ deliver_command worker job (ruling job t row v) ∷ [],
      ))
        × (get "settle_escrow" (ruling job t row v) ≡ bool v.passed)
  unfolding get truthy read_status
  funded_job_is_delivered job t deliverable row v log set plain same given up found said
        (job', is, g, live, fine, s, read, good, accepted) sent =
      (
        process-delivers (connect worker h site) job (str t) deliverable (ruling job t row v) log s
            (g, live, fine) (rw (text_of is) read) good accepted
            (document-ruling job t deliverable row v set plain same given up found said) sent,
        refl,
      )
    where
      text_of : {a b : String} → str a ≡ str b → a ≡ b
      text_of e = cc
