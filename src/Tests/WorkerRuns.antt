-- ===== src/Tests/WorkerRuns.antt =====
-- Runs of the A2A worker.
use merita.Prelude.{
  true, false, ◌≡◌, ◌⊎◌, refl, none, some, List, [], ◌∷◌, ◌++◌, is_ascii, ne_of_test,
}
use merita.Prelude.Attempt.{Attempt, returned, raised}
use merita.Json.{Json, str, bool, obj, end, field, get, truthy}
use merita.A2aWorker.{
  Worker, Arguments, CliResult, Command, replied, process, read_status, json_from, named_status,
  or_scanned, deliver_command, build_verdict_document, read_reply,
}
use merita.A2aWorker.Entry.{main, start, asked, with_deliverable}
use merita.A2aWorker.Delivery.{IsFunded, deliveries}
use merita.A2aWorker.Status.{IsAccepted, delivers_after_acceptance}
use merita.A2aWorker.Exit.{IsDelivered, main-IsDelivered}
use merita.A2aWorker.Verifier.{connect, reply_of, IsPassed, settles_only_on_a_pass}
use merita.A2aWorker.Progress.{checked, ruling, funded_job_is_delivered}
use merita.Store
use merita.Store.{find}
use merita.Server.{internal_verify, compare_digest, internal_body, verify_task}
use merita.Tests.Fixtures.{rt}
use merita.Tests.ServerRuns.{host, site, sealed_row, passed}

-- a wallet that says yes, and a job whose status is `accepted`
abbrev says_yes : List Command → Command → Attempt CliResult
says_yes log c = returned (record { ok = true; stdout = "accepted"; stderr = "" })

abbrev answered : Json
answered = obj (field "status" (str "accepted") (field "passed" (bool true) end))

abbrev worker : Worker
worker = record {
  rt = record rt { loads = λ codes. some answered };
  lower_text = λ s. s;
  cli = says_yes;
  server = λ body. replied 200 (some answered);
  read_text = λ path. raised;
  temp_dir = "/tmp";
  agent_id = "5516";
  worker_token = "secret";
}

delivers_after_acceptance_example :
    (deliveries (process worker (str "job") (str "t") (bool true) false []).1 ≡ 0)
    ⊎ ((false ≡ false)
        × IsAccepted worker (str "job") []
        × (deliveries (process worker (str "job") (str "t") (bool true) false []).1 ≡ 1))
delivers_after_acceptance_example =
    delivers_after_acceptance worker (str "job") (str "t") (bool true) false [] refl

abbrev arguments : Arguments
arguments = record {
  job_id = some "job";
  event = none;
  task_id = some "t";
  deliverable = some "true";
  dry_run = false;
}

main-IsDelivered_example : (false ≡ true) ⊎ IsDelivered worker (main worker arguments []).1
unfolding main start process asked with_deliverable truthy
main-IsDelivered_example = main-IsDelivered worker arguments [] refl

-- the job is funded, and the wallet accepts whatever it is asked
worker-IsFunded : IsFunded worker (str "job") []
unfolding read_status json_from named_status or_scanned get truthy
worker-IsFunded = ("job", refl, says, refl, refl, says, refl, refl, refl)
  where
    says : CliResult
    says = record { ok = true; stdout = "accepted"; stderr = "" }

funded_job_is_delivered_example :
    (process (connect worker host site) (str "job") (str "t") (bool true) false [] ≡ (
      returned true,
      checked worker host site "job" []
          ++ deliver_command worker "job" (ruling worker host site "job" "t" sealed_row passed)
            ∷ [],
    ))
    × (get "settle_escrow" (ruling worker host site "job" "t" sealed_row passed)
        ≡ bool passed.passed)
unfolding is_ascii find
funded_job_is_delivered_example =
    funded_job_is_delivered worker host site "job" "t" (bool true) sealed_row passed []
      (ne_of_test "secret" "" refl) refl refl (ne_of_test "t" "" refl) refl refl refl
      worker-IsFunded (record { ok = true; stdout = "accepted"; stderr = "" }, refl, refl)

settles_only_on_a_pass_example :
    IsPassed worker host site
      (str "t")
      (bool true)
      (ruling worker host site "job" "t" sealed_row passed)
unfolding is_ascii find build_verdict_document read_reply reply_of get truthy internal_verify
    compare_digest internal_body verify_task Store.get
settles_only_on_a_pass_example =
    settles_only_on_a_pass worker host site (str "job") (str "t") (bool true)
      (ruling worker host site "job" "t" sealed_row passed) refl refl
