-- ===== src/Server/Requests.antt =====
-- Any requests to asp/server.py, in any order and in any surroundings.
use merita.Prelude.{
  String, Bool, true, false, ◌≡◌, refl, ◌⊎◌, inl, inr, Option, none, some, List, [], ◌∷◌, ◌==◌,
  Bool-cases, Option-cases, strip_text, if◌then◌else◌,
}
use merita.Prelude.Attempt.{Attempt, returned, raised}
use merita.Json.{Json, null, bool, int, float, str, arr, obj, Fields, get, truthy}
use merita.Store
use merita.Store.{Commitment, Db, Result, ok, value_error, db_error, find}
use merita.Store.Commits.{commit_keeps}
use merita.Paywall.{Payment}
use merita.HttpDoor
use merita.Integrity.{observe_spec}
use merita.HttpDoor.Answers.{handle_keeps}
use merita.Server.{
  Site, Host, Judgement, Response, verdict, door_of, Request, Ask, commit_tool, verify_tool,
  screen_tool, demo_commit, demo_verify, worker_verify, http_verify, step, serve,
  commit_acceptance_test, answer_commit, verify_deliverable, assess_integrity, public_verify,
  text_at, public_commit, verify_task, internal_body, internal_verify, compare_digest, fields_of,
  x402_verify, verify_demo, commit_demo, crashed, failed, namespaced,
}
use merita.Server.Ledger.{
  IsRuled, IsFaithful, IsQuiet, judge_found-IsQuiet, judge_free-IsQuiet, verify_demo-IsQuiet,
  commit_demo-IsQuiet, answer_commit-Kept,
}

-- the key under which a request adds to the graph
abbrev pub adds_spec : Ask → Option String
adds_spec (commit_tool t test spec) = some t
adds_spec other = none

-- the task that the fields name by a text, and the deliverable
abbrev pub named_by : Json → Json → Option (String × Json)
named_by (str t) deliverable = some (t, deliverable)
named_by other deliverable = none

module _ (h : Host) where
  -- what the object in a body names, by what is read of its fields
  abbrev pub in_fields : (Fields → Option (String × Json)) → Option Fields → Option (String × Json)
  in_fields read none = none
  in_fields read (some d) = read d

  abbrev pub in_body : (Fields → Option (String × Json)) → Option Json → Option (String × Json)
  in_body read none = none
  in_body read (some body) = in_fields read (fields_of h body)

  abbrev pub demo_named : Fields → Option (String × Json)
  demo_named d = some (namespaced (strip_text (text_at h "task_id" d)), get "deliverable" d)

  abbrev pub worker_named : Fields → Option (String × Json)
  worker_named d = named_by (get "task_id" d) (get "deliverable" d)

  -- The key of the task that a request for a verdict names, and the deliverable that it submits: a demo's
  -- key has the prefix.
  abbrev pub asks_for : Ask → Option (String × Json)
  asks_for (verify_tool t d pay) = some (t, obj d)
  asks_for (demo_verify r) = in_body demo_named r.body
  asks_for (worker_verify r) = in_body worker_named r.body
  asks_for other = none

  -- the run on a decoded body that is an object
  on_fields-IsQuiet :
      (f : Fields → Site → Response × Site) (read : Fields → Option (String × Json)) (site : Site)
      → ((d : Fields) → IsQuiet h (read d) site (f d site))
      → (o : Option Fields)
      → IsQuiet h
          (in_fields read o)
          site
          (elim o as (λ o. Response × Site) [ none ↦ (crashed, site) | some d ↦ f d site ])
  on_fields-IsQuiet f read site k none = (λ s r k. k, tt, refl)
  on_fields-IsQuiet f read site k (some d) = k d

  public_verify-IsQuiet :
      (r : Request) (site : Site)
      → IsQuiet h (in_body demo_named r.body) site (public_verify h r site)
  unfolding public_verify
  public_verify-IsQuiet r site = elim (Bool-cases (r.method == "OPTIONS")) [
    | inl e ↦ rw e (λ s r k. k, tt, refl)
    | inr e ↦ elim (Option-cases r.body) [
      | inl n ↦ rw (e, n) (λ s r k. k, tt, refl)
      | inr (body, b) ↦
          rw (e, b)
            (on_fields-IsQuiet
              (λ d site.
                verify_demo h (strip_text (text_at h "task_id" d)) (get "deliverable" d) site)
              demo_named site
              (λ d.
                verify_demo-IsQuiet h (strip_text (text_at h "task_id" d)) (get "deliverable" d)
                  site)
              (fields_of h body))
    ]
  ]

  none_named : (o : Option Fields) → in_fields (λ d. none) o ≡ none
  none_named none = refl
  none_named (some d) = refl

  public_commit-IsQuiet : (r : Request) (site : Site) → IsQuiet h none site (public_commit h r site)
  unfolding public_commit
  public_commit-IsQuiet r site = elim (Bool-cases (r.method == "OPTIONS")) [
    | inl e ↦ rw e (λ s r k. k, tt, refl)
    | inr e ↦ elim (Option-cases r.body) [
      | inl n ↦ rw (e, n) (λ s r k. k, tt, refl)
      | inr (body, b) ↦
          rw (e, b)
            (rw (none_named (fields_of h body)) at (
              on_fields-IsQuiet
                (λ d site.
                  commit_demo h (strip_text (text_at h "task_id" d)) (text_at h "acceptance_test" d)
                    (text_at h "spec" d) site)
                (λ d. none) site
                (λ d.
                  commit_demo-IsQuiet h (strip_text (text_at h "task_id" d))
                    (text_at h "acceptance_test" d) (text_at h "spec" d) site)
                (fields_of h body)))
    ]
  ]

  refuse_task-IsQuiet :
      (other : Json) (site : Site)
      → IsQuiet h none site
          (if truthy other then (crashed, site) else (failed 400 "task_id required", site))
  refuse_task-IsQuiet other site = elim (Bool-cases (truthy other)) [
    | inl e ↦ rw e (λ s r k. k, tt, refl)
    | inr e ↦ rw e (λ s r k. k, tt, refl)
  ]

  verify_task-IsQuiet :
      (task_id deliverable : Json) (site : Site)
      → IsQuiet h (named_by task_id deliverable) site (verify_task h task_id deliverable site)
  unfolding verify_task
  verify_task-IsQuiet (str t) d site = elim (Bool-cases (t == "")) [
    | inl e ↦ rw e (λ s r k. k, tt, refl)
    | inr e ↦ rw e (judge_free-IsQuiet h "a2a" _ d t site (Store.get (h.up 0) t site.ledger) refl)
  ]
  verify_task-IsQuiet null d site = refuse_task-IsQuiet null site
  verify_task-IsQuiet (bool b) d site = refuse_task-IsQuiet (bool b) site
  verify_task-IsQuiet (int z) d site = refuse_task-IsQuiet (int z) site
  verify_task-IsQuiet (float x) d site = refuse_task-IsQuiet (float x) site
  verify_task-IsQuiet (arr xs) d site = refuse_task-IsQuiet (arr xs) site
  verify_task-IsQuiet (obj f) d site = refuse_task-IsQuiet (obj f) site

  internal_body-IsQuiet :
      (r : Request) (a : Attempt Bool) (site : Site)
      → IsQuiet h (in_body worker_named r.body) site (internal_body h r a site)
  unfolding internal_body
  internal_body-IsQuiet r raised site = (λ s r k. k, tt, refl)
  internal_body-IsQuiet r (returned false) site = (λ s r k. k, tt, refl)
  internal_body-IsQuiet r (returned true) site = elim (Option-cases r.body) [
    | inl n ↦ rw n (λ s r k. k, tt, refl)
    | inr (body, b) ↦ rw b (
        on_fields-IsQuiet (λ d site. verify_task h (get "task_id" d) (get "deliverable" d) site)
          worker_named site (λ d. verify_task-IsQuiet (get "task_id" d) (get "deliverable" d) site)
          (fields_of h body))
  ]

  internal_verify-IsQuiet :
      (r : Request) (site : Site)
      → IsQuiet h (in_body worker_named r.body) site (internal_verify h r site)
  unfolding internal_verify
  internal_verify-IsQuiet r site = elim (Bool-cases (h.worker_token == "")) [
    | inl e ↦ rw e (λ s r k. k, tt, refl)
    | inr e ↦ rw e (internal_body-IsQuiet r (compare_digest h r.worker_token h.worker_token) site)
  ]

  x402_verify-IsQuiet :
      (r : HttpDoor.Request) (site : Site) → IsQuiet h none site (x402_verify h r site)
  unfolding x402_verify
  x402_verify-IsQuiet r site = (handle_keeps (door_of h) r site.ledger, tt, refl)

  verify_deliverable-IsQuiet :
      (t : String) (d : Fields) (pay : Option Payment) (site : Site)
      → IsQuiet h (some (t, obj d)) site (verify_deliverable h t d pay site)
  unfolding verify_deliverable
  verify_deliverable-IsQuiet t d pay site =
      judge_found-IsQuiet h t (obj d) pay site (Store.get (h.up 0) t site.ledger) refl

  -- Whatever the request, the graph is as before or has one more spec.
  pub step-graph :
      (ask : Ask) (site : Site)
      → ((step h ask site).1.graph ≡ site.graph)
        ⊎ ((t : String) × (adds_spec ask ≡ some t)
            × (spec : String) × ((step h ask site).1.graph
                ≡ observe_spec h.words t spec site.graph))
  unfolding step commit_acceptance_test answer_commit
  step-graph (commit_tool t test spec) site =
      committed (Store.commit h.rt.sha256 (h.up 0) (h.nonce 0) t test spec site.ledger)
    where
      committed :
          (p : Result String × Db)
          → ((answer_commit h t spec p site).1.graph ≡ site.graph)
            ⊎ ((t' : String) × (some t ≡ some t')
                × (spec' : String) × ((answer_commit h t spec p site).1.graph
                    ≡ observe_spec h.words t' spec' site.graph))
      committed (ok c, db) = inr (t, refl, spec, refl)
      committed (value_error e, db) = inl refl
      committed (db_error, db) = inl refl
  step-graph (verify_tool t d pay) site = inl (verify_deliverable-IsQuiet t d pay site).2
  step-graph (screen_tool counterparty my_address) site = inl refl
  step-graph (demo_commit r) site = inl (public_commit-IsQuiet r site).2
  step-graph (demo_verify r) site = inl (public_verify-IsQuiet r site).2
  step-graph (worker_verify r) site = inl (internal_verify-IsQuiet r site).2
  step-graph (http_verify r) site = inl (x402_verify-IsQuiet r site).2

  step-IsFaithful : (ask : Ask) (site : Site) → IsFaithful h (asks_for ask) site (step h ask site)
  unfolding step commit_acceptance_test assess_integrity
  step-IsFaithful (commit_tool t test spec) site =
      answer_commit-Kept h t spec
        (Store.commit h.rt.sha256 (h.up 0) (h.nonce 0) t test spec site.ledger) site
        (commit_keeps h.rt.sha256 (h.nonce 0) t test spec site.ledger (h.up 0))
  step-IsFaithful (verify_tool t d pay) site =
      let q = verify_deliverable-IsQuiet t d pay site in (q.0, q.1)
  step-IsFaithful (screen_tool counterparty my_address) site = (λ s r k. k, tt)
  step-IsFaithful (demo_commit r) site = let q = public_commit-IsQuiet r site in (q.0, q.1)
  step-IsFaithful (demo_verify r) site = let q = public_verify-IsQuiet r site in (q.0, q.1)
  step-IsFaithful (worker_verify r) site = let q = internal_verify-IsQuiet r site in (q.0, q.1)
  step-IsFaithful (http_verify r) site = let q = x402_verify-IsQuiet r site in (q.0, q.1)

  -- A verdict that a tool or a JSON route answers, the paid one, the demo's or the worker's, is for the
  -- task that the request names, and is the referee's, on the deliverable that the request submits and
  -- on the test, the nonce and the hash of the row that the ledger then has for this task.
  pub verdict-IsRuled :
      (ask : Ask) (site : Site) (j : Judgement)
      → (step h ask site).0 ≡ verdict j
      → (key : String) × (deliverable : Json) × (asks_for ask ≡ some (key, deliverable))
        × IsRuled h key deliverable j (step h ask site).1.ledger
  verdict-IsRuled ask site j e = rw e at (step-IsFaithful ask site).1

-- Whatever is asked of the server, by anyone, in any order, with failures of the database, of the
-- referee and of the requests, a test that was committed stays: the same row is found.
pub serve_keeps :
    (asks : List (Host × Ask)) (site : Site) (t : String) (r : Commitment)
    → find t site.ledger.commitments ≡ some r
    → find t (serve asks site).ledger.commitments ≡ some r
unfolding serve
serve_keeps [] site t r k = k
serve_keeps ((h, ask) ∷ rest) site t r k =
    serve_keeps rest (step h ask site).1 t r ((step-IsFaithful h ask site).0 t r k)
