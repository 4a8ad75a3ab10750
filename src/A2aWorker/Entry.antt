-- ===== src/A2aWorker/Entry.antt =====
-- `main` of asp/a2a_worker.py: what the arguments and the event ask for, and the exit code.
use merita.Prelude.{ℕ, String, Bool, not, Option, none, some, List, ◌==◌, if◌then◌else◌, eqb}
use Prim.Native.Char.{code}
use merita.Prelude.Attempt.{Attempt, returned, raised}
use merita.Json.{Json, null, obj, Fields, get, truthy, or_else}
use merita.A2aWorker.{
  Worker, Arguments, Command, object_of, or_empty, json_or_null, text_json, json_from, process,
}

-- what is to be done
pub record Task : Type 0 where
  pub job_id : Json
  pub task_id : Json
  pub deliverable : Json

-- `raw[1:]` behind an `@`
abbrev behind_at : String → Option String
behind_at String.[] = none
behind_at (String.◌∷◌ c rest) = if eqb (code c) b'@' then some rest else none

-- whether an argument was given, and is not empty
abbrev given : Option String → Option String
given none = none
given (some s) = if s == "" then none else some s

-- what the event says, and the arguments before it
unfoldable pub read_event : Arguments → Fields → Attempt Task
unfolding get truthy
read_event a ev = elim (object_of (or_else (get "message" ev) (obj ev))) [
  | raised ↦ raised
  | returned msg ↦ returned (record {
    job_id = or_else (or_else (text_json a.job_id) (get "jobId" ev)) (get "jobId" msg);
    task_id = or_else (or_else (text_json a.task_id) (get "task_id" msg)) (get "taskId" msg);
    deliverable = get "deliverable" msg;
  })
]

module _ (worker : Worker) where
  unfoldable pub asked : Arguments → Attempt Task
  unfolding read_event json_from
  asked a = elim (given a.event) [
    | none ↦
        returned (record {
          job_id = text_json a.job_id;
          task_id = text_json a.task_id;
          deliverable = null;
        })
    | some event ↦ elim (object_of (or_empty (json_from worker.rt event))) [
      | raised ↦ raised
      | returned ev ↦ read_event a ev
    ]
  ]

  -- the deliverable of the command line, or of the file that it names
  abbrev text_given : String → Attempt String
  text_given raw = elim (behind_at raw) [ none ↦ returned raw | some path ↦ worker.read_text path ]

  unfoldable pub with_deliverable : Arguments → Task → Attempt Task
  unfolding json_from
  with_deliverable a task = elim (given a.deliverable) [
    | none ↦ returned task
    | some raw ↦ elim (text_given raw) [
      | raised ↦ raised
      | returned text ↦
          returned (record task { deliverable = json_or_null (json_from worker.rt text) })
    ]
  ]

  -- an exception in `process` is exit code 1
  abbrev exit_code : Attempt Bool → ℕ
  exit_code raised = 1
  exit_code (returned done) = 0

  abbrev pub finish : Attempt Bool × List Command → Option ℕ × List Command
  finish (o, log) = (some (exit_code o), log)

  unfoldable pub start : Bool → Attempt Task → List Command → Option ℕ × List Command
  unfolding process truthy
  start dry_run raised log = (none, log)
  start dry_run (returned task) log =
      if not (truthy task.job_id)
      then (some 2, log)
      else finish (process worker task.job_id task.task_id task.deliverable dry_run log)

  -- `none` is an exception that nothing catches
  unfoldable pub main : Arguments → List Command → Option ℕ × List Command
  unfolding asked with_deliverable start
  main a =
      start a.dry_run (elim (asked a) [ raised ↦ raised | returned task ↦ with_deliverable a task ])
