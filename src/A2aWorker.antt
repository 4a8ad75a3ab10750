-- ===== src/A2aWorker.antt =====
-- asp/a2a_worker.py: the local process that fetches a verdict and delivers it on-chain. The write of the
-- document to its temporary file is taken to succeed.
mod Cli
pub mod Entry
pub mod Delivery
pub mod Status
pub mod Exit
pub mod Verifier
pub mod Progress
pub use Cli.{CliResult, Command, Run, ◌>>=◌, pure, lift}
unfoldable pub use Cli.{run_command, json_from}
pub use Cli.{>>=-rule, >>=-returned}
use merita.Prelude.{
  ℕ, String, Bool, true, false, not, Option, none, some, List, [], ◌∷◌, ◌++◌, ◌==◌, if◌then◌else◌,
  concat, codes, contains, eqb, is_some,
}
use merita.Prelude.Attempt.{Attempt, returned, raised}
use merita.Json.{
  Json, null, bool, int, float, str, arr, obj, Fields, end, field, get, truthy, or_else,
}
use merita.Runtime.{Runtime}

-- what the verifier's server answers: nothing, or a status and the decoded body, `none` where it is no
-- JSON
pub data Reply : Type 0 where
  unreachable : Reply
  replied : ℕ → Option Json → Reply

-- The standard library, `str.lower`, the wallet's command line, the server that verifies, and the
-- files that can be read.
pub record Worker : Type 0 where
  pub rt : Runtime
  pub lower_text : String → String
  pub cli : List Command → Command → Attempt CliResult
  pub server : Fields → Reply
  pub read_text : String → Attempt String
  pub temp_dir : String
  pub agent_id : String
  pub worker_token : String

-- the arguments of the command line
pub record Arguments : Type 0 where
  pub job_id : Option String
  pub event : Option String
  pub task_id : Option String
  pub deliverable : Option String
  pub dry_run : Bool

abbrev pub object_of : Json → Attempt Fields
object_of (obj d) = returned d
object_of other = raised

-- `_json_from(text) or {}`
abbrev pub or_empty : Option Json → Json
or_empty none = obj end
or_empty (some j) = or_else j (obj end)

abbrev pub json_or_null : Option Json → Json
json_or_null none = null
json_or_null (some j) = j

abbrev pub text_json : Option String → Json
text_json none = null
text_json (some s) = str s

-- The first of the candidates that stands in the text.
unfoldable pub first_in : List String → List ℕ → String
first_in [] text = ""
first_in (c ∷ rest) text = if contains (codes c) text then c else first_in rest text

abbrev pub candidates : List String
candidates = "accepted" ∷ "submitted" ∷ "completed" ∷ "applied" ∷ "rejected" ∷ "disputed" ∷ []

module _ (worker : Worker) where
  abbrev pub run : Command → Run CliResult
  run = run_command worker.cli

  abbrev pub or_raise : Bool → Run Bool
  or_raise ok = if ok then pure true else lift raised

  unfoldable pub gate_check : Run Bool
  unfolding run_command
  gate_check = do r ← run ("agent" ∷ "gate-check" ∷ "--role" ∷ "asp" ∷ []); or_raise r.ok

  -- the `status` of the decoded answer, in lower case; `or` evaluates the task only where it is needed
  unfoldable pub named_status : Fields → Attempt String
  unfolding get truthy
  named_status d =
      if truthy (get "status" d)
      then returned (worker.lower_text (worker.rt.str_of (get "status" d)))
      else if truthy (get "state" d)
      then returned (worker.lower_text (worker.rt.str_of (get "state" d)))
      else elim (object_of (or_else (get "task" d) (obj end))) [
        | raised ↦ raised
        | returned task ↦
            returned (worker.lower_text (worker.rt.str_of (or_else (get "status" task) (str ""))))
      ]

  -- where no status is named, the text is searched
  unfoldable pub or_scanned : String → String → String
  unfolding first_in
  or_scanned stdout status =
      if status == "" then first_in candidates (codes (worker.lower_text stdout)) else status

  unfoldable pub read_status : String → Attempt String
  unfolding json_from named_status or_scanned
  read_status stdout = elim (object_of (or_empty (json_from worker.rt stdout))) [
    | raised ↦ raised
    | returned d ↦ elim (named_status d) [
      | raised ↦ raised
      | returned status ↦ returned (or_scanned stdout status)
    ]
  ]

  -- a job id that is no text cannot be a part of a command
  unfoldable pub task_status : Json → Run String
  unfolding run_command read_status
  task_status (str job_id) = do
    r ← run ("agent" ∷ "status" ∷ job_id ∷ "--agent-id" ∷ worker.agent_id ∷ [])
    ok ← or_raise r.ok
    lift (read_status r.stdout)
  task_status other = lift raised

  abbrev service_name : Json
  service_name = str "Merita — Acceptance Test Verification"

  abbrev note : String
  note =
      "The acceptance test was committed as a hash before work began and revealed only at verification. If reveal_valid is false, the poster changed the test after the fact and the ruling goes to the worker."

  abbrev how_to_use : String
  how_to_use =
      "Commit a machine-checkable acceptance test first (free), then submit the worker's deliverable. Merita runs it in a hardened sandbox and returns a signed pass/fail verdict."

  -- the document on the server's verdict
  abbrev pub verdict_document : Json → Json → Fields → Fields
  verdict_document job_id task_id v = field "service" service_name (
      field "job_id" job_id (
        field "task_id" task_id (
          field "commitment" (get "commitment" v) (
            field "verdict"
              (obj (
                field "passed" (get "passed" v) (
                  field "confidence" (get "confidence" v) (
                    field "reason" (get "reason" v)
                      (field "reveal_valid" (get "reveal_valid" v) end)))))
              (field "settle_escrow" (bool (truthy (get "passed" v)))
                (field "note" (str note) end))))))

  abbrev no_verdict : Json → Json → String → Fields
  no_verdict job_id task_id error = field "service" service_name (
      field "job_id" job_id
        (field "task_id" task_id (field "verdict" null (field "error" (str error) end))))

  unfoldable pub read_reply : Json → Json → Reply → Attempt Fields
  read_reply job_id task_id unreachable = raised
  read_reply job_id task_id (replied status body) =
      if eqb status 404
      then returned (
          no_verdict job_id task_id (
            concat
              ("no committed acceptance test for task '" ∷ worker.rt.str_of task_id ∷ "'" ∷ [])))
      else if not (eqb status 200)
      then raised
      else elim (object_of (json_or_null body)) [
        | raised ↦ raised
        | returned v ↦ returned (verdict_document job_id task_id v)
      ]

  unfoldable pub build_verdict_document : Json → Json → Json → Attempt Fields
  unfolding read_reply
  build_verdict_document job_id task_id deliverable =
      if not (truthy task_id)
      then returned (
          field "service" service_name (
            field "job_id" job_id (
              field "verdict" null (
                field "error" (str "no task_id supplied with this job; nothing to verify")
                  (field "how_to_use" (str how_to_use) end)))))
      else if worker.worker_token == ""
      then raised
      else read_reply job_id task_id
          (worker.server (field "task_id" task_id (field "deliverable" deliverable end)))

  -- the message, from `(doc.get("verdict") or {}).get("passed")`
  abbrev message_for : Json → String
  message_for (bool true) = "Verification complete — PASSED. Verdict and commitment attached."
  message_for (bool false) =
      "Verification complete — FAILED. Verdict, reason, and commitment attached."
  message_for other = "Could not render a verdict; details attached."

  -- the verdict of a document is null or an object
  abbrev passed_of : Json → Json
  passed_of (obj v) = get "passed" v
  passed_of other = null

  abbrev pub deliver_command : String → Fields → Command
  deliver_command job_id doc =
      "agent"
      ∷ "deliver"
      ∷ job_id
      ∷ "--file"
      ∷ concat (worker.temp_dir ∷ "/merita-verdict-" ∷ job_id ∷ ".json" ∷ [])
      ∷ "--message"
      ∷ message_for (passed_of (get "verdict" doc))
      ∷ "--agent-id"
      ∷ worker.agent_id
      ∷ []

  unfoldable pub deliver : Json → Fields → Bool → Run Bool
  unfolding run_command get
  deliver job_id doc true = pure true
  deliver (str job_id) doc false = do r ← run (deliver_command job_id doc); or_raise r.ok
  deliver other doc false = lift raised

  -- the hard gate: nothing is done before the escrow is funded
  unfoldable pub process : Json → Json → Json → Bool → Run Bool
  unfolding gate_check task_status build_verdict_document deliver
  process job_id task_id deliverable dry_run = do
    live ← gate_check
    status ← task_status job_id
    accepted ← or_raise (status == "accepted")
    doc ← lift (build_verdict_document job_id task_id deliverable)
    deliver job_id doc dry_run
