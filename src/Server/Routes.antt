-- ===== src/Server/Routes.antt =====
-- The JSON routes of asp/server.py: /public/commit, /public/verify, /internal/verify, /feed, /health and
-- the self-test of `_startup`. The CORS headers are not modelled.
use merita.Prelude.{
  String, Bool, true, false, ◌&&◌, ◌||◌, Option, none, some, List, [], ◌∷◌, if◌then◌else◌, concat,
  ◌==◌, ltb, length, codes, strip_text, is_ascii,
}
use merita.Prelude.Int.{pos}
use merita.Prelude.Float
use merita.Prelude.Float.{one_point}
use merita.Prelude.Attempt.{Attempt, returned, raised}
use merita.Json.{Json, bool, str, obj, Fields, end, field, get, truthy, or_else}
use merita.Commitment.{AcceptanceTest, test_commitment}
use merita.Models.{Verdict}
use merita.Store
use merita.Store.{Commitment, Db, Result, ok, value_error, db_error}
use merita.HttpDoor
use merita.Server.State.{
  Site, Host, Response, failed, preflight, crashed, committed, refused, verdict, from_door, door_of,
}
use merita.Server.Tools.{log_line, judgement_of}

-- what a route reads of a request; `body` is the decoded body, `none` where it is no JSON
pub record Request : Type 0 where
  pub method : String
  pub worker_token : String
  pub body : Option Json

-- `f"public:{task_id}"`
abbrev pub namespaced : String → String
namespaced task_id = concat ("public:" ∷ task_id ∷ [])

module _ (h : Host) where
  -- `str(body.get(k) or "")`
  unfoldable pub text_at : String → Fields → String
  text_at k d = h.rt.str_of (or_else (get k d) (str ""))

  -- the commit of a demo test: an error of the store is answered
  abbrev pub answer_demo : String → Result String × Db → Site → Response × Site
  answer_demo task_id (ok c, db) site = (committed task_id c, record site { ledger = db })
  answer_demo task_id (value_error e, db) site = (refused e, record site { ledger = db })
  answer_demo task_id (db_error, db) site =
      (failed 500 "commit failed", record site { ledger = db })

  unfoldable pub commit_demo : String → String → String → Site → Response × Site
  commit_demo task_id source spec site =
      if task_id == "" || source == ""
      then (failed 400 "task_id and acceptance_test are required", site)
      else if ltb 4000 (length (codes source))
          || ltb 2000 (length (codes spec))
          || ltb 80 (length (codes task_id))
      then (failed 413 "input too large", site)
      else answer_demo task_id
          (Store.commit h.rt.sha256 (h.up 0) (h.nonce 0) (namespaced task_id) source spec
            site.ledger)
          site

  -- `body.get` raises on a body that is no object
  abbrev pub fields_of : Json → Option Fields
  fields_of (obj d) = some d
  fields_of other = none

  unfoldable pub public_commit : Request → Site → Response × Site
  unfolding text_at commit_demo strip_text
  public_commit r site = if r.method == "OPTIONS" then (preflight, site) else elim r.body [
    | none ↦ (failed 400 "body must be JSON", site)
    | some body ↦ elim (fields_of body) [
      | none ↦ (crashed, site)
      | some d ↦
          commit_demo (strip_text (text_at "task_id" d)) (text_at "acceptance_test" d)
            (text_at "spec" d) site
    ]
  ]

  -- the verdict of a free route, and its line in the log
  abbrev pub answer_free : String → String → Commitment → Attempt Verdict → Site → Response × Site
  answer_free surface key row raised site = (crashed, site)
  answer_free surface key row (returned v) site = (
    verdict (judgement_of h key row v none),
    record site {
      ledger =
          Store.record_verdict h.real (h.up 1) (log_line h key row v none none surface) site.ledger;
    },
  )

  -- the lookup, the referee and the log of a free route; `surface` names it in the log
  abbrev pub judge_free :
      String → String → Json → String → Result (Option Commitment) → Site → Response × Site
  judge_free surface missing deliverable key (ok none) site = (failed 404 missing, site)
  judge_free surface missing deliverable key (ok (some row)) site =
      answer_free surface key row (h.referee row.source row.nonce row.commitment deliverable) site
  judge_free surface missing deliverable key (value_error e) site = (crashed, site)
  judge_free surface missing deliverable key db_error site = (crashed, site)

  unfoldable pub verify_demo : String → Json → Site → Response × Site
  verify_demo task_id deliverable site =
      if task_id == ""
      then (failed 400 "task_id required", site)
      else judge_free "demo"
          (concat ("no sealed test for demo task '" ∷ task_id ∷ "' — seal one first" ∷ []))
          deliverable (namespaced task_id) (Store.get (h.up 0) (namespaced task_id) site.ledger)
          site

  unfoldable pub public_verify : Request → Site → Response × Site
  unfolding text_at verify_demo strip_text
  public_verify r site = if r.method == "OPTIONS" then (preflight, site) else elim r.body [
    | none ↦ (failed 400 "body must be JSON", site)
    | some body ↦ elim (fields_of body) [
      | none ↦ (crashed, site)
      | some d ↦ verify_demo (strip_text (text_at "task_id" d)) (get "deliverable" d) site
    ]
  ]

  -- the row for the worker's task; the key column is TEXT, and a value of another type is an error
  unfoldable pub verify_task : Json → Json → Site → Response × Site
  verify_task (str t) deliverable site =
      if t == ""
      then (failed 400 "task_id required", site)
      else judge_free "a2a" (concat ("no committed acceptance test for task '" ∷ t ∷ "'" ∷ []))
          deliverable t (Store.get (h.up 0) t site.ledger) site
  verify_task other deliverable site =
      if truthy other then (crashed, site) else (failed 400 "task_id required", site)

  -- `hmac.compare_digest`, which raises at a text that is not ASCII
  unfoldable pub compare_digest : String → String → Attempt Bool
  unfolding is_ascii
  compare_digest a b = if is_ascii a && is_ascii b then returned (a == b) else raised

  -- after the token has been compared
  unfoldable pub internal_body : Request → Attempt Bool → Site → Response × Site
  unfolding verify_task
  internal_body r raised site = (crashed, site)
  internal_body r (returned false) site = (failed 401 "unauthorized", site)
  internal_body r (returned true) site = elim r.body [
    | none ↦ (failed 400 "body must be JSON", site)
    | some body ↦ elim (fields_of body) [
      | none ↦ (crashed, site)
      | some d ↦ verify_task (get "task_id" d) (get "deliverable" d) site
    ]
  ]

  unfoldable pub internal_verify : Request → Site → Response × Site
  unfolding compare_digest internal_body
  internal_verify r site =
      if h.worker_token == ""
      then (failed 503 "internal endpoint disabled (MERITA_WORKER_TOKEN unset)", site)
      else internal_body r (compare_digest r.worker_token h.worker_token) site

  -- the store's own methods catch what goes wrong
  unfoldable pub feed : Site → List Store.LoggedVerdict × Store.Stats
  feed site = (Store.feed (h.up 0) (pos 50) site.ledger, Store.stats (h.up 1) site.ledger)

  -- `x402_verify` hands the request to the plain-HTTP door
  unfoldable pub x402_verify : HttpDoor.Request → Site → Response × Site
  x402_verify r site =
      let (answer, db) = HttpDoor.handle (door_of h) r site.ledger in
      (from_door answer, record site { ledger = db })

  -- the self-test: a known-good check, on the nonce that its constructor drew
  abbrev passes : Attempt Verdict → Bool
  passes raised = false
  passes (returned v) = v.passed && Float.eq v.confidence one_point

  unfoldable pub sandbox_ok : Bool
  sandbox_ok =
      let probe : AcceptanceTest = record {
        source = "def check(o): return o.get('ok') is True";
        nonce = h.nonce 0;
      } in
      passes (
        h.referee probe.source probe.nonce (test_commitment h.rt.sha256 probe)
          (obj (field "ok" (bool true) end)))
