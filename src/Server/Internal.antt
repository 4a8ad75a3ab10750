-- ===== src/Server/Internal.antt =====
-- /internal/verify of asp/server.py: what stands behind its verdict, and which requests get one.
use merita.Prelude.{
  String, Bool, if◌then◌else◌, true, false, ◌≡◌, ◌≢◌, refl, inl, inr, Option, none, some, ◌==◌,
  arith, Bool-cases, eq_iff, eq_refl, is_ascii,
}
use merita.Prelude.Attempt.{Attempt, returned, raised}
use merita.Json.{Json, null, bool, int, float, str, arr, obj, Fields, get, truthy}
use merita.Models.{Verdict}
use merita.Store
use merita.Store.{Commitment, Result, ok, value_error, db_error, find}
use merita.Server.{
  Site, Host, Judgement, Response, failed, crashed, verdict, judgement_of, answer_free, judge_free,
  verify_task, compare_digest, internal_body, internal_verify, Request,
}
use merita.Server.Ledger.{get-found}

-- Two texts that differ are told apart by the test.
pub ne_test : (s t : String) → s ≢ t → (s == t) ≡ false
ne_test s t differ = elim (Bool-cases (s == t)) [
  | inl same ↦ absurd (differ ((eq_iff s t).0 same))
  | inr other ↦ other
]

module _ (h : Host) where
  -- The judgement is the referee's of the deliverable, on the row of the task.
  abbrev pub IsJudged : Site → String → Json → Judgement → Type 0
  IsJudged site t deliverable j =
      (row : Commitment) × (find t site.ledger.commitments ≡ some row)
      × (v : Verdict) × (h.referee row.source row.nonce row.commitment deliverable ≡ returned v)
      × (j ≡ judgement_of h t row v none)

  judge_free-IsJudged :
      (missing t : String) (d : Json) (site : Site) (j : Judgement) (o : Result (Option Commitment))
      → Store.get (h.up 0) t site.ledger ≡ o
      → (judge_free h "a2a" missing d t o site).0 ≡ verdict j
      → IsJudged site t d j
  judge_free-IsJudged missing t d site j (ok none) e k = cc
  judge_free-IsJudged missing t d site j (value_error text) e k = cc
  judge_free-IsJudged missing t d site j db_error e k = cc
  judge_free-IsJudged missing t d site j (ok (some row)) e k =
      ruled (h.referee row.source row.nonce row.commitment d) refl k
    where
      ruled :
          (a : Attempt Verdict)
          → h.referee row.source row.nonce row.commitment d ≡ a
          → (answer_free h "a2a" t row a site).0 ≡ verdict j
          → IsJudged site t d j
      ruled raised said k = cc
      ruled (returned v) said k = (row, get-found (h.up 0) t site.ledger row e, v, said, cc)

  -- The task is named by a text, and the judgement is of its row.
  abbrev pub IsAnswered : Site → Json → Json → Judgement → Type 0
  IsAnswered site task d j = (t : String) × (task ≡ str t) × IsJudged site t d j

  refused :
      (task d : Json) (site : Site) (j : Judgement) (empty : Bool)
      → (let answer : Response × Site =
            if empty then (crashed, site) else (failed 400 "task_id required", site) in
          answer.0 ≡ verdict j)
      → IsAnswered site task d j
  refused task d site j true k = cc
  refused task d site j false k = cc

  verify_task-IsAnswered :
      (task d : Json) (site : Site) (j : Judgement)
      → (verify_task h task d site).0 ≡ verdict j
      → IsAnswered site task d j
  unfolding verify_task
  verify_task-IsAnswered (str t) d site j k = elim (Bool-cases (t == "")) [
    | inl empty ↦ absurd (ground (arith, rw empty at k))
    | inr given ↦ (
      t,
      refl,
      judge_free-IsJudged _ t d site j (Store.get (h.up 0) t site.ledger) refl (rw given at k),
    )
  ]
  verify_task-IsAnswered null d site j k = refused null d site j (truthy null) k
  verify_task-IsAnswered (bool b) d site j k = refused (bool b) d site j (truthy (bool b)) k
  verify_task-IsAnswered (int z) d site j k = refused (int z) d site j (truthy (int z)) k
  verify_task-IsAnswered (float x) d site j k = refused (float x) d site j (truthy (float x)) k
  verify_task-IsAnswered (arr xs) d site j k = refused (arr xs) d site j (truthy (arr xs)) k
  verify_task-IsAnswered (obj o) d site j k = refused (obj o) d site j (truthy (obj o)) k

  module _ (r : Request) (d : Fields) (site : Site) (with_body : r.body ≡ some (obj d)) where
    pub internal_verify-IsAnswered :
        (j : Judgement)
        → (internal_verify h r site).0 ≡ verdict j
        → IsAnswered site (get "task_id" d) (get "deliverable" d) j
    unfolding internal_verify internal_body
    internal_verify-IsAnswered j k = elim (Bool-cases (h.worker_token == "")) [
      | inl unset ↦ absurd (ground (arith, rw unset at k))
      | inr token ↦ compared (compare_digest h r.worker_token h.worker_token) (rw token at k)
    ]
      where
        compared :
            (a : Attempt Bool)
            → (internal_body h r a site).0 ≡ verdict j
            → IsAnswered site (get "task_id" d) (get "deliverable" d) j
        compared raised said = cc
        compared (returned false) said = cc
        compared (returned true) said =
            verify_task-IsAnswered (get "task_id" d) (get "deliverable" d) site j
              (rw with_body at said)

    -- A request with the worker's token, for a task with a test, gets the referee's verdict.
    pub internal_verify-judges :
        (t : String) (row : Commitment) (v : Verdict)
        → h.worker_token ≢ ""
        → is_ascii h.worker_token ≡ true
        → r.worker_token ≡ h.worker_token
        → get "task_id" d ≡ str t
        → t ≢ ""
        → h.up 0 ≡ true
        → find t site.ledger.commitments ≡ some row
        → h.referee row.source row.nonce row.commitment (get "deliverable" d) ≡ returned v
        → (internal_verify h r site).0 ≡ verdict (judgement_of h t row v none)
    unfolding internal_verify internal_body verify_task compare_digest Store.get
    internal_verify-judges t row v set plain same names given up found said =
        rw
          (
            ne_test h.worker_token "" set,
            same,
            plain,
            eq_refl h.worker_token,
            with_body,
            names,
            ne_test t "" given,
            up,
            found,
            said,
          )
          refl
