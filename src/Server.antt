-- ===== src/Server.antt =====
-- asp/server.py: the tools and routes of the Agent Service Provider, as functions on what the server
-- keeps; `step` is one request of any kind.
pub mod Ledger
pub mod Requests
pub mod Arguments
pub mod Gates
pub mod Namespace
pub mod Screen
pub mod Internal
pub mod Health
mod State
mod Tools
mod Routes
pub use State.{
  Site, Host, Judgement, Screening, Response, failed, preflight, crashed, committed, refused,
  verdict, screened, from_door, door_of,
}
unfoldable pub use Tools.{
  settle_receipt, commit_acceptance_test, answer_commit, log_line, judgement_of, answer_verdict,
  judge_found, verify_deliverable, recommendation, assess_integrity, check_row, no_test, args_of,
  check_task, precheck, log_if, receipt_tx, amount_of, screening_of, paid_tools, gate,
}
pub use Routes.{Request, namespaced}
unfoldable pub use Routes.{
  text_at, answer_demo, fields_of, answer_free, judge_free, commit_demo, public_commit, verify_demo,
  public_verify, verify_task, compare_digest, internal_body, internal_verify, feed, x402_verify,
  sandbox_ok,
}
use merita.Prelude.{String, Option, List, [], ◌∷◌}
use merita.Json.{Fields}
use merita.Paywall.{Payment}
use merita.HttpDoor

-- what a client can ask that may change what the server keeps
pub data Ask : Type 0 where
  commit_tool : String → String → String → Ask
  verify_tool : String → Fields → Option Payment → Ask
  screen_tool : String → String → Ask
  demo_commit demo_verify worker_verify : Request → Ask
  http_verify : HttpDoor.Request → Ask

unfoldable pub step : Host → Ask → Site → Response × Site
unfolding commit_acceptance_test verify_deliverable assess_integrity public_commit public_verify
    internal_verify x402_verify
step h (commit_tool task_id test spec) site = commit_acceptance_test h task_id test spec site
step h (verify_tool task_id deliverable pay) site =
    verify_deliverable h task_id deliverable pay site
step h (screen_tool counterparty my_address) site = assess_integrity h counterparty my_address site
step h (demo_commit r) site = public_commit h r site
step h (demo_verify r) site = public_verify h r site
step h (worker_verify r) site = internal_verify h r site
step h (http_verify r) site = x402_verify h r site

-- Requests in their order, each in its own surroundings.
unfoldable pub serve : List (Host × Ask) → Site → Site
unfolding step
serve [] site = site
serve ((h, ask) ∷ rest) site = serve rest (step h ask site).1
