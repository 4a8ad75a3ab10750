-- ===== src/A2aWorker/Delivery.antt =====
-- What asp/a2a_worker.py delivers, and what its exit code says.
use merita.Prelude.{
  ℕ, ◌+◌, String, Bool, true, false, ◌≡◌, refl, ◌∙◌, ◌⊎◌, inl, inr, List, [], ◌∷◌, ◌++◌, ◌==◌,
  arith, count_if, count_if-append, eq_iff,
}
use merita.Prelude.Attempt.{Attempt, returned, raised}
use merita.Json.{Json, str, Fields}
use merita.A2aWorker.{
  Worker, CliResult, Command, Run, ◌>>=◌, lift, >>=-rule, run_command, gate_check, task_status,
  read_status, build_verdict_document, deliver, process, or_raise, deliver_command,
}

-- whether a command delivers
abbrev pub delivers : Command → Bool
delivers (agent ∷ verb ∷ rest) = verb == "deliver"
delivers other = false

abbrev pub deliveries : List Command → ℕ
deliveries log = count_if delivers log

module _ (worker : Worker) where
  -- The wallet's session is live.
  abbrev pub session_check : Command
  session_check = "agent" ∷ "gate-check" ∷ "--role" ∷ "asp" ∷ []

  abbrev pub status_of : String → Command
  status_of job_id = "agent" ∷ "status" ∷ job_id ∷ "--agent-id" ∷ worker.agent_id ∷ []

  -- The command line was asked for the session and for the job's status, said yes to the first, and its
  -- answer to the second reads `accepted`.
  abbrev pub IsFunded : Json → List Command → Type 0
  IsFunded job_id log =
      (job : String) × (job_id ≡ str job)
      × (g : CliResult) × (worker.cli log session_check ≡ returned g)
      × (g.ok ≡ true)
      × (s : CliResult) × (worker.cli (log ++ session_check ∷ []) (status_of job) ≡ returned s)
      × (s.ok ≡ true)
      × (read_status worker s.stdout ≡ returned "accepted")

  -- Nothing was delivered; or one thing was, for a job that is funded, and not in a dry run.
  abbrev pub IsGuarded : Json → Bool → List Command → Attempt Bool × List Command → Type 0
  IsGuarded job_id dry_run log (o, log') =
      (deliveries log' ≡ deliveries log)
      ⊎ ((dry_run ≡ false) × IsFunded job_id log × (deliveries log' ≡ deliveries log + 1))

  pub or_raise-log : (ok : Bool) (log : List Command) → (or_raise worker ok log).1 ≡ log
  or_raise-log true log = refl
  or_raise-log false log = refl

  pub or_raise-returned :
      (ok done : Bool) (log : List Command) → (or_raise worker ok log).0 ≡ returned done → ok ≡ true
  or_raise-returned true done log h = refl
  or_raise-returned false done log h = cc

  deliver-counted :
      (job_id : Json) (doc : Fields) (dry_run : Bool) (log : List Command)
      → (deliveries (deliver worker job_id doc dry_run log).1 ≡ deliveries log)
        ⊎ ((dry_run ≡ false)
            × (deliveries (deliver worker job_id doc dry_run log).1 ≡ deliveries log + 1))
  unfolding deliver
  deliver-counted job_id doc true log = inl refl
  deliver-counted (str job) doc false log =
      let c : Command = deliver_command worker job doc in
      let one : deliveries (log ++ c ∷ []) ≡ deliveries log + 1 =
        count_if-append delivers log (c ∷ []) in
      inr (
        refl,
        >>=-rule (λ p. deliveries p.1 ≡ deliveries log + 1) (run_command worker.cli c)
            (λ r. or_raise worker r.ok) log (λ r e. rw (or_raise-log r.ok (log ++ c ∷ [])) one)
            (λ e. one),
      )
  deliver-counted other doc false log = inl refl

  gate_check-way :
      (log : List Command)
      → ((gate_check worker log).1 ≡ log ++ session_check ∷ [])
        × ((live : Bool)
            → (gate_check worker log).0 ≡ returned live
            → (g : CliResult) × (worker.cli log session_check ≡ returned g) × (g.ok ≡ true))
  unfolding gate_check run_command
  gate_check-way log = (
    >>=-rule (λ p. p.1 ≡ log ++ session_check ∷ []) (run_command worker.cli session_check)
        (λ r. or_raise worker r.ok) log (λ r e. or_raise-log r.ok (log ++ session_check ∷ []))
        (λ e. refl),
    λ live.
        >>=-rule
          (λ p.
            p.0 ≡ returned live
            → (g : CliResult) × (worker.cli log session_check ≡ returned g) × (g.ok ≡ true))
          (run_command worker.cli session_check) (λ r. or_raise worker r.ok) log
          (λ r e h. (r, e, or_raise-returned r.ok live (log ++ session_check ∷ []) h)) (λ e h. cc),
  )

  task_status-way :
      (job : String) (log : List Command)
      → ((task_status worker (str job) log).1 ≡ log ++ status_of job ∷ [])
        × ((status : String)
            → (task_status worker (str job) log).0 ≡ returned status
            → (s : CliResult) × (worker.cli log (status_of job) ≡ returned s)
              × (s.ok ≡ true)
              × (read_status worker s.stdout ≡ returned status))
  unfolding task_status run_command
  task_status-way job log = (
    >>=-rule (λ p. p.1 ≡ log ++ status_of job ∷ []) (run_command worker.cli (status_of job)) read
        log
        (λ r e.
          >>=-rule (λ p. p.1 ≡ log ++ status_of job ∷ []) (or_raise worker r.ok)
            (λ ok. lift (read_status worker r.stdout)) (log ++ status_of job ∷ [])
            (λ ok h. or_raise-log r.ok (log ++ status_of job ∷ []))
            (λ h. or_raise-log r.ok (log ++ status_of job ∷ [])))
        (λ e. refl),
    λ status.
        >>=-rule
          (λ p.
            p.0 ≡ returned status
            → (s : CliResult) × (worker.cli log (status_of job) ≡ returned s)
              × (s.ok ≡ true)
              × (read_status worker s.stdout ≡ returned status))
          (run_command worker.cli (status_of job)) read log
          (λ r e.
            >>=-rule
              (λ p.
                p.0 ≡ returned status
                → (s : CliResult) × (worker.cli log (status_of job) ≡ returned s)
                  × (s.ok ≡ true)
                  × (read_status worker s.stdout ≡ returned status))
              (or_raise worker r.ok) (λ ok. lift (read_status worker r.stdout))
              (log ++ status_of job ∷ [])
              (λ ok o h. (r, e, or_raise-returned r.ok ok (log ++ status_of job ∷ []) o, h))
              (λ o h. cc))
          (λ e h. cc),
  )
    where
      read : CliResult → Run String
      read r = or_raise worker r.ok >>= (λ ok. lift (read_status worker r.stdout))

  quiet :
      (log log' : List Command) (c : Command)
      → delivers c ≡ false
      → log' ≡ log ++ c ∷ []
      → deliveries log' ≡ deliveries log
  quiet log log' c e h = rw h (ground (arith, count_if-append delivers log (c ∷ []), e))

  module _ (task_id deliverable : Json) (dry_run : Bool) where
    -- the parts of `process` behind its first two steps
    abbrev after_gate_of : Json → Bool → Run Bool
    after_gate_of job accepted = or_raise worker accepted >>= (λ done.
        lift (build_verdict_document worker job task_id deliverable)
        >>= (λ doc. deliver worker job doc dry_run))

    documented :
        (job : Json) (doc : Attempt Fields) (log : List Command)
        → (deliveries ((lift doc >>= (λ d. deliver worker job d dry_run)) log).1 ≡ deliveries log)
          ⊎ ((dry_run ≡ false)
              × (deliveries ((lift doc >>= (λ d. deliver worker job d dry_run)) log).1
                  ≡ deliveries log + 1))
    documented job raised log = inl refl
    documented job (returned doc) log = deliver-counted job doc dry_run log

    after_gate-counted :
        (job : Json) (accepted : Bool) (log : List Command)
        → (deliveries (after_gate_of job accepted log).1 ≡ deliveries log)
          ⊎ ((dry_run ≡ false)
              × (accepted ≡ true)
              × (deliveries (after_gate_of job accepted log).1 ≡ deliveries log + 1))
    after_gate-counted job false log = inl refl
    after_gate-counted job true log =
        elim (documented job (build_verdict_document worker job task_id deliverable) log) [
          | inl none_sent ↦ inl none_sent
          | inr (wet, sent) ↦ inr (wet, refl, sent)
        ]

    after_status-IsGuarded :
        (job status : String) (log log3 : List Command)
        → deliveries log3 ≡ deliveries log
        → (status ≡ "accepted" → IsFunded (str job) log)
        → IsGuarded (str job) dry_run log (after_gate_of (str job) (status == "accepted") log3)
    after_status-IsGuarded job status log log3 same funded =
        elim (after_gate-counted (str job) (status == "accepted") log3) [
          | inl none_sent ↦ inl (none_sent ∙ same)
          | inr (wet, is, sent) ↦
              inr (wet, funded ((eq_iff status "accepted").0 is), omega (arith, sent, same))
        ]

    after_gate-IsGuarded :
        (job_id : Json) (log log2 : List Command) (g : CliResult)
        → log2 ≡ log ++ session_check ∷ []
        → worker.cli log session_check ≡ returned g
        → g.ok ≡ true
        → IsGuarded job_id dry_run log (
            (task_status worker job_id >>= (λ status. after_gate_of job_id (status == "accepted")))
              log2)
    after_gate-IsGuarded (str job) log log2 g here live ok =
        let way = task_status-way job log2 in
        let still : deliveries (task_status worker (str job) log2).1 ≡ deliveries log =
          quiet log2 (task_status worker (str job) log2).1 (status_of job) refl way.0
          ∙ quiet log log2 session_check refl here in
        >>=-rule (IsGuarded (str job) dry_run log) (task_status worker (str job))
          (λ status. after_gate_of (str job) (status == "accepted")) log2
          (λ status e.
            after_status-IsGuarded job status log (task_status worker (str job) log2).1 still
              (λ accepted.
                let (s, said, fine, reads) = way.1 status e in
                (job, refl, g, live, ok, s, rw here at said, fine, rw accepted at reads)))
          (λ e. inl still)
    after_gate-IsGuarded other log log2 g here live ok =
        unfold task_status in inl (quiet log log2 session_check refl here)

  -- However `process` ends, it has delivered at most once; and if it has, then before that the wallet's
  -- session was live, `read_status` gave `accepted`, and the run was not dry.
  pub delivers_only_funded_work :
      (job_id task_id deliverable : Json) (dry_run : Bool) (log : List Command)
      → IsGuarded job_id dry_run log (process worker job_id task_id deliverable dry_run log)
  unfolding process
  delivers_only_funded_work job_id task_id deliverable dry_run log =
      let way = gate_check-way log in
      let still : deliveries (gate_check worker log).1 ≡ deliveries log =
        quiet log (gate_check worker log).1 session_check refl way.0 in
      >>=-rule (IsGuarded job_id dry_run log) (gate_check worker)
        (λ live.
          task_status worker job_id
          >>= (λ status. after_gate_of task_id deliverable dry_run job_id (status == "accepted")))
        log
        (λ live e.
          let (g, said, ok) = way.1 live e in
          after_gate-IsGuarded task_id deliverable dry_run job_id log (gate_check worker log).1 g
            way.0 said ok)
        (λ e. inl still)
