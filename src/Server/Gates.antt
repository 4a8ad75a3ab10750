-- ===== src/Server/Gates.antt =====
-- What asp/server.py asks of a caller before the referee runs: a payment, which `_precheck` lets be
-- taken only for a task that has a test, or the worker's token.
use merita.Prelude.{
  String, Bool, true, false, ◌≡◌, ◌≢◌, refl, ◌∙◌, ◌⊎◌, inl, inr, Option, none, some, List, ◌==◌,
  arith, ◌&&◌, Bool-cases, eq_iff, is_ascii,
}
use merita.Prelude.Attempt.{Attempt, returned, raised}
use merita.Json.{Json, str, obj, Fields, get, truthy}
use merita.Models.{Verdict}
use merita.Store
use merita.Store.{Commitment, ok, find}
use merita.Facilitator.{Service}
use merita.Paywall.{
  Scope, Tariff, Payment, Action, forward, free_reject, prechecked, tool_args, honour,
}
use merita.Paywall.Gate.{IsPaidCall, decide-paid_call}
use merita.Server.{
  Site, Host, Ask, Response, Judgement, verdict, crashed, judgement_of, settle_receipt, serve,
  verify_deliverable, judge_found, answer_verdict, precheck, paid_tools, gate, Request,
  internal_verify, internal_body, compare_digest,
}
use merita.Server.Requests.{serve_keeps}
use merita.Server.Arguments.{
  IsUnreadable, text-cases, object-cases, check_task-empty, precheck-empty, check_task-found,
  precheck_task,
}

-- The gate hears an objection of the hook.
objection :
    (fac : Service) (paid : List (String × Tariff))
    (check : String → Json → Attempt (Bool × String)) (tool : String) (args : Json)
    (reason : String)
    → check tool args ≡ returned (false, reason)
    → prechecked fac paid (some check) tool args ≡ some reason
unfolding prechecked
objection fac paid check tool args reason e = rw e refl

module _ (h : Host) where
  -- the answer on a row: the verdict, if the referee gives one
  abbrev pub ruled : String → Option Payment → Commitment → Attempt Verdict → Response
  ruled task pay row raised = crashed
  ruled task pay row (returned v) = verdict (judgement_of h task row v (settle_receipt h pay))

  verify_deliverable-found :
      (task : String) (deliverable : Fields) (pay : Option Payment) (site : Site) (row : Commitment)
      → h.up 0 ≡ true
      → find task site.ledger.commitments ≡ some row
      → (verify_deliverable h task deliverable pay site).0
        ≡ ruled task pay row (h.referee row.source row.nonce row.commitment (obj deliverable))
  unfolding verify_deliverable judge_found Store.get
  verify_deliverable-found task deliverable pay site row up found =
      rw (up, found) (answered (h.referee row.source row.nonce row.commitment (obj deliverable)))
    where
      answered :
          (a : Attempt Verdict) → (answer_verdict h task pay row a site).0 ≡ ruled task pay row a
      answered raised = unfold answer_verdict in refl
      answered (returned v) = unfold answer_verdict in refl

module _ (h : Host) (site : Site) where
  module _ (scope : Scope) (body : Option Json) (t : Tariff)
      (call : IsPaidCall h.fac paid_tools
        (some (precheck h site))
        scope
        body
        "verify_deliverable"
        t)
      (path : String) (stash : Option Payment)
      (through : gate h site scope body ≡ forward path stash) where
    -- A call to which the hook objects does not come through.
    no_objection :
        (reason : String)
        → precheck h site "verify_deliverable" (tool_args body) ≢ returned (false, reason)
    unfolding gate
    no_objection reason rejects = rejected (
        rw
          (decide-paid_call h.fac paid_tools (some (precheck h site)) scope body
            "verify_deliverable" t call)
          at through)
      where
        objects :
            prechecked h.fac paid_tools
              (some (precheck h site))
              "verify_deliverable"
              (tool_args body)
            ≡ some reason
        objects =
            objection h.fac paid_tools (precheck h site) "verify_deliverable" (tool_args body)
              reason rejects

        rejected :
            elim (prechecked h.fac paid_tools
                  (some (precheck h site))
                  "verify_deliverable"
                  (tool_args body))
                as (λ o. Action) [ some r ↦ free_reject r | none ↦ honour h.fac paid_tools scope t ]
              ≡ forward path stash
            → ⊥
        rejected k = ground (arith, rw objects at k)

    -- The arguments name a task by a text, or cannot be read.
    names_a_task :
        IsUnreadable (tool_args body)
        ⊎ ((args : Fields) × (task : String) × (tool_args body ≡ obj args)
            × (get "task_id" args ≡ str task))
    names_a_task = elim (object-cases (tool_args body)) [
      | inl (args, is) ↦ elim (text-cases (get "task_id" args)) [
        | inl (task, names) ↦ inr (args, task, is, names)
        | inr no_text ↦ elim (Bool-cases (truthy (get "task_id" args))) [
          | inl some_value ↦ inl (inr (args, is, some_value, no_text))
          | inr empty ↦ absurd (
              no_objection "task_id is required" (
                rw is (
                  precheck_task h site args
                  ∙ check_task-empty h site (get "task_id" args) empty no_text)))
        ]
      ]
      | inr no_object ↦ elim (Bool-cases (truthy (tool_args body))) [
        | inl some_value ↦ inl (inl (some_value, no_object))
        | inr empty ↦ absurd (
            no_objection "task_id is required"
              (precheck-empty h site (tool_args body) empty no_object))
      ]
    ]

    task_has_a_test :
        (args : Fields) (task : String)
        → tool_args body ≡ obj args
        → get "task_id" args ≡ str task
        → h.up 0 ≡ true
        → (row : Commitment) × (find task site.ledger.commitments ≡ some row)
    task_has_a_test args task is names up = check_task-found h site task up (λ reason rejects.
        no_objection reason (rw is (precheck_task h site args ∙ rw names rejects)))

-- A buyer who names a task is not charged for nothing. If the gate, with the server's hook, lets a call of
-- verify_deliverable by an MCP client through, while the database answers, then either the hook could
-- not read the arguments, which are no object and not empty, or name as their task what is no text and
-- not empty; or they name a task by a text, and this task has a test: whatever the server is asked
-- before the tool runs, where the database answers the tool, it finds this test, and its answer is the
-- referee's verdict on it, unless the referee raises.
pub paid_call_gets_a_verdict :
    (h : Host) (site : Site) (scope : Scope) (body : Option Json) (t : Tariff) (path : String)
    (stash : Option Payment) (asks : List (Host × Ask)) (later : Host) (deliverable : Fields)
    (pay : Option Payment)
    → IsPaidCall h.fac paid_tools (some (precheck h site)) scope body "verify_deliverable" t
    → h.up 0 ≡ true
    → later.up 0 ≡ true
    → gate h site scope body ≡ forward path stash
    → IsUnreadable (tool_args body)
      ⊎ ((args : Fields) × (task : String) × (tool_args body ≡ obj args)
          × (get "task_id" args ≡ str task)
          × (row : Commitment) × (find task site.ledger.commitments ≡ some row)
          × ((verify_deliverable later task deliverable pay (serve asks site)).0
              ≡ ruled later task pay row
                  (later.referee row.source row.nonce row.commitment (obj deliverable))))
paid_call_gets_a_verdict h site scope body t path stash asks later deliverable pay call up up'
      through =
    elim (names_a_task h site scope body t call path stash through) [
      | inl unreadable ↦ inl unreadable
      | inr (args, task, is, names) ↦
          let (row, found) =
            task_has_a_test h site scope body t call path stash through args task is names up in
          inr (
            args,
            task,
            is,
            names,
            row,
            found,
            verify_deliverable-found later task deliverable pay (serve asks site) row up'
                (serve_keeps asks site task row found),
          )
    ]

module _ (h : Host) where
  -- The worker's token is set, and it is the one that came with the request.
  abbrev pub IsWorker : Request → Type 0
  IsWorker r = (h.worker_token ≢ "") × (r.worker_token ≡ h.worker_token)

  internal_body-refused :
      (r : Request) (site : Site) (a : Attempt Bool)
      → a ≢ returned true
      → ((internal_body h r a site).1 ≡ site)
        × ((j : Judgement) → (internal_body h r a site).0 ≢ verdict j)
  unfolding internal_body
  internal_body-refused r site raised other = (refl, λ j k. cc)
  internal_body-refused r site (returned false) other = (refl, λ j k. cc)
  internal_body-refused r site (returned true) other = absurd (other refl)

  compare_digest-same : (a b : String) → compare_digest h a b ≡ returned true → a ≡ b
  unfolding compare_digest
  compare_digest-same a b e = elim (Bool-cases (is_ascii a && is_ascii b)) [
    | inl plain ↦ (eq_iff a b).0 (ground (arith, rw plain at e))
    | inr other ↦ absurd (ground (arith, rw other at e))
  ]

  -- The free route of the worker fails closed: either the worker's token is set and came with the
  -- request, or the request gets no verdict and changes nothing, also where the two tokens cannot be
  -- compared.
  pub internal_verify-IsWorker :
      (r : Request) (site : Site)
      → IsWorker r
        ⊎ (((internal_verify h r site).1 ≡ site)
            × ((j : Judgement) → (internal_verify h r site).0 ≢ verdict j))
  unfolding internal_verify
  internal_verify-IsWorker r site = elim (Bool-cases (h.worker_token == "")) [
    | inl unset ↦ inr (rw unset (refl, λ j k. cc))
    | inr token ↦ rw token (compared token (compare_digest h r.worker_token h.worker_token) refl)
  ]
    where
      compared :
          (h.worker_token == "") ≡ false
          → (a : Attempt Bool) → compare_digest h r.worker_token h.worker_token ≡ a
          → IsWorker r
            ⊎ (((internal_body h r a site).1 ≡ site)
                × ((j : Judgement) → (internal_body h r a site).0 ≢ verdict j))
      compared token raised e = inr (internal_body-refused r site raised (λ k. cc))
      compared token (returned false) e =
          inr (internal_body-refused r site (returned false) (λ k. ground (arith, k)))
      compared token (returned true) e = inl (
        (λ k. ground (arith, token, (eq_iff h.worker_token "").1 k)),
        compare_digest-same r.worker_token h.worker_token e,
      )
