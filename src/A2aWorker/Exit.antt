-- ===== src/A2aWorker/Exit.antt =====
-- The exit code of asp/a2a_worker.py.
use merita.Prelude.{
  String, Bool, true, false, not, ◌≡◌, refl, ◌⊎◌, inl, inr, some, List, [], ◌∷◌, ◌++◌, ◌==◌, arith,
  if◌then◌else◌,
}
use merita.Prelude.Attempt.{Attempt, returned, raised}
use merita.Json.{Json, str, Fields, truthy}
use merita.A2aWorker.{
  Worker, Arguments, CliResult, Command, Run, ◌>>=◌, lift, >>=-rule, run_command, gate_check,
  task_status, build_verdict_document, deliver, process, or_raise, deliver_command,
}
use merita.A2aWorker.Entry.{Task, asked, with_deliverable, finish, start, main}
use merita.A2aWorker.Delivery.{delivers, or_raise-log, or_raise-returned}

module _ (worker : Worker) where
  -- The last command that was run delivers, and the wallet's command line accepted it.
  abbrev pub IsDelivered : List Command → Type 0
  IsDelivered log' =
      (log : List Command) × (c : Command) × (r : CliResult) × (log' ≡ log ++ c ∷ [])
      × (delivers c ≡ true)
      × (worker.cli log c ≡ returned r)
      × (r.ok ≡ true)

  -- A result was returned by a dry run, or by a delivery.
  abbrev IsDone : Bool → Bool → Attempt Bool × List Command → Type 0
  IsDone dry_run done p = p.0 ≡ returned done → (dry_run ≡ true) ⊎ IsDelivered p.1

  deliver-IsDone :
      (job_id : Json) (doc : Fields) (dry_run done : Bool) (log : List Command)
      → IsDone dry_run done (deliver worker job_id doc dry_run log)
  unfolding deliver run_command
  deliver-IsDone job_id doc true done log h = inl refl
  deliver-IsDone (str job) doc false done log h =
      let c : Command = deliver_command worker job doc in
      >>=-rule (IsDone false done) (run_command worker.cli c) (λ r. or_raise worker r.ok) log
        (λ r e h. inr (
          log,
          c,
          r,
          or_raise-log worker r.ok (log ++ c ∷ []),
          refl,
          e,
          or_raise-returned worker r.ok done (log ++ c ∷ []) h,
        ))
        (λ e h. cc) h
  deliver-IsDone other doc false done log h = cc

  process-IsDone :
      (job_id task_id deliverable : Json) (dry_run done : Bool) (log : List Command)
      → IsDone dry_run done (process worker job_id task_id deliverable dry_run log)
  unfolding process
  process-IsDone job_id task_id deliverable dry_run done log =
      let document : Run Fields = lift (build_verdict_document worker job_id task_id deliverable) in
      let last : Run Bool = document >>= (λ doc. deliver worker job_id doc dry_run) in
      let guarded : String → Run Bool =
        λ status. or_raise worker (status == "accepted") >>= (λ accepted. last) in
      >>=-rule (IsDone dry_run done) (gate_check worker)
        (λ live. task_status worker job_id >>= guarded) log
        (λ live e.
          >>=-rule (IsDone dry_run done) (task_status worker job_id) guarded
            (gate_check worker log).1
            (λ status e.
              >>=-rule (IsDone dry_run done) (or_raise worker (status == "accepted"))
                (λ accepted. last) (task_status worker job_id (gate_check worker log).1).1
                (λ accepted e.
                  >>=-rule (IsDone dry_run done) document (λ doc. deliver worker job_id doc dry_run)
                    (or_raise worker (status == "accepted")
                      (task_status worker job_id (gate_check worker log).1).1).1
                    (λ doc e.
                      deliver-IsDone job_id doc dry_run done
                        (or_raise worker (status == "accepted")
                          (task_status worker job_id (gate_check worker log).1).1).1)
                    (λ e h. cc))
                (λ e h. cc))
            (λ e h. cc))
        (λ e h. cc)

  finish-IsDone :
      (dry_run : Bool) (p : Attempt Bool × List Command)
      → ((done : Bool) → IsDone dry_run done p)
      → (finish worker p).0 ≡ some 0
      → (dry_run ≡ true) ⊎ IsDelivered (finish worker p).1
  finish-IsDone dry_run (raised, log) done h = absurd (ground (arith, h))
  finish-IsDone dry_run (returned b, log) done h = done b refl

  start-IsDone :
      (dry_run : Bool) (t : Attempt Task) (log : List Command)
      → (start worker dry_run t log).0 ≡ some 0
      → (dry_run ≡ true) ⊎ IsDelivered (start worker dry_run t log).1
  unfolding start
  start-IsDone dry_run raised log h = cc
  start-IsDone dry_run (returned task) log h = split (truthy task.job_id) h
    where
      split :
          (c : Bool)
          → (if not c
              then (some 2, log)
              else finish worker
                  (process worker task.job_id task.task_id task.deliverable dry_run log)).0
            ≡ some 0
          → (dry_run ≡ true)
            ⊎ IsDelivered
                (if not c
                  then (some 2, log)
                  else finish worker
                      (process worker task.job_id task.task_id task.deliverable dry_run log)).1
      split true h =
          finish-IsDone dry_run
            (process worker task.job_id task.task_id task.deliverable dry_run log)
            (λ done. process-IsDone task.job_id task.task_id task.deliverable dry_run done log) h
      split false h = absurd (ground (arith, h))

  -- The worker never exits with 0 having done nothing. If its exit code is 0, the run was dry, or the
  -- last command that it ran delivers and was accepted; a missing job, a refusal, a failed command or
  -- any exception gives another code.
  pub main-IsDelivered :
      (a : Arguments) (log : List Command)
      → (main worker a log).0 ≡ some 0
      → (a.dry_run ≡ true) ⊎ IsDelivered (main worker a log).1
  unfolding main
  main-IsDelivered a log h =
      start-IsDone a.dry_run
        (elim (asked worker a) as (λ x. Attempt Task) [
          | raised ↦ raised
          | returned task ↦ with_deliverable worker a task
        ])
        log h
