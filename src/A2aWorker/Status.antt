-- ===== src/A2aWorker/Status.antt =====
-- What the wallet must have said before asp/a2a_worker.py delivers.
use merita.Prelude.{
  ℕ, ◌+◌, String, Bool, true, false, ◌≡◌, ◌≢◌, refl, ◌⊎◌, inl, inr, Option, none, some, List, [],
  ◌∷◌, ◌++◌, ◌==◌, arith, Bool-cases, codes, contains, ne_of_test, sym, ◌∙◌,
}
use merita.Prelude.Attempt.{Attempt, returned, raised}
use merita.Json.{Json, str, obj, Fields, end, null, bool, int, float, arr, or_else, get, truthy}
use merita.A2aWorker.{
  Worker, CliResult, Command, process, read_status, named_status, or_scanned, first_in, candidates,
  json_from, or_empty, object_of,
}
use merita.A2aWorker.Delivery.{deliveries, session_check, status_of, delivers_only_funded_work}

object_of-returned : (j : Json) {d : Fields} → object_of j ≡ returned d → j ≡ obj d
object_of-returned (obj d) h = cc
object_of-returned null h = cc
object_of-returned (bool b) h = cc
object_of-returned (int z) h = cc
object_of-returned (float x) h = cc
object_of-returned (str s) h = cc
object_of-returned (arr xs) h = cc

-- `j or {}` is `j`, or is empty
object_or_empty :
    (j : Json) {d : Fields} → object_of (or_else j (obj end)) ≡ returned d → (j ≡ obj d) ⊎ (d ≡ end)
object_or_empty j h = elim (Bool-cases (truthy j)) [
  | inl t ↦ inl (object_of-returned j (rw t at h))
  | inr f ↦ inr (ground (arith, rw f at h))
]

not_in_end : (k : String) → truthy (get k end) ≢ true
unfolding get truthy
not_in_end k h = ground (arith, h)

module _ (worker : Worker) where
  abbrev lower_str : Json → String
  lower_str j = worker.lower_text (worker.rt.str_of j)

  -- The object says `accepted` under `status`, under `state`, or under the `status` of its `task`.
  abbrev pub NamesAccepted : Fields → Type 0
  NamesAccepted d =
      (lower_str (get "status" d) ≡ "accepted")
      ⊎ (lower_str (get "state" d) ≡ "accepted")
      ⊎ ((task : Fields) × (get "task" d ≡ obj task) × (lower_str (get "status" task) ≡ "accepted"))

  -- So says the object in the answer, or the word stands in its text.
  abbrev pub SaysAccepted : String → Type 0
  SaysAccepted stdout =
      ((d : Fields) × (json_from worker.rt stdout ≡ some (obj d)) × NamesAccepted d)
      ⊎ (contains (codes "accepted") (codes (worker.lower_text stdout)) ≡ true)

  first_in-accepted :
      (text : List ℕ)
      → first_in candidates text ≡ "accepted"
      → contains (codes "accepted") text ≡ true
  unfolding first_in
  first_in-accepted text h = elim (Bool-cases (contains (codes "accepted") text)) [
    | inl says ↦ says
    | inr other ↦ absurd (
        ground (
          arith,
          rw other at h,
          ne_of_test "" "accepted" refl,
          ne_of_test "submitted" "accepted" refl,
          ne_of_test "completed" "accepted" refl,
          ne_of_test "applied" "accepted" refl,
          ne_of_test "rejected" "accepted" refl,
          ne_of_test "disputed" "accepted" refl,
        ))
  ]

  -- `str("").lower()` is empty
  module _ (empty : lower_str (str "") ≡ "") where
    from_task :
        (task : Fields)
        → lower_str (or_else (get "status" task) (str "")) ≡ "accepted"
        → (truthy (get "status" task) ≡ true) × (lower_str (get "status" task) ≡ "accepted")
    from_task task h = elim (Bool-cases (truthy (get "status" task))) [
      | inl named ↦ (named, rw named at h)
      | inr nothing ↦
          let blank : lower_str (str "") ≡ "accepted" = rw nothing at h in
          absurd (ne_of_test "" "accepted" refl (sym empty ∙ blank))
    ]

    -- what is read of the task, if it is an object
    abbrev task_status_of : Attempt Fields → Attempt String
    task_status_of o = elim o [
      | raised ↦ raised
      | returned task ↦ returned (lower_str (or_else (get "status" task) (str "")))
    ]

    task-accepted :
        (j : Json) (o : Attempt Fields)
        → object_of (or_else j (obj end)) ≡ o
        → task_status_of o ≡ returned "accepted"
        → (task : Fields) × (j ≡ obj task) × (lower_str (get "status" task) ≡ "accepted")
    task-accepted j raised e h = cc h
    task-accepted j (returned task) e h =
        let (named, says) = from_task task (ground (arith, h)) in
        elim (object_or_empty j e) [
          | inl is ↦ (task, is, says)
          | inr nothing ↦ absurd (not_in_end "status" (rw nothing at named))
        ]

    named_status-accepted :
        (d : Fields) → named_status worker d ≡ returned "accepted" → NamesAccepted d
    unfolding named_status
    named_status-accepted d h = elim (Bool-cases (truthy (get "status" d))) [
      | inl named ↦ inl (ground (arith, rw named at h))
      | inr other ↦ elim (Bool-cases (truthy (get "state" d))) [
        | inl named ↦ inr (inl (ground (arith, rw (other, named) at h)))
        | inr neither ↦ inr (inr (task-accepted (get "task" d) _ refl (rw (other, neither) at h)))
      ]
    ]

    end_names_nothing : named_status worker end ≢ returned "accepted"
    unfolding named_status get truthy
    end_names_nothing h = ne_of_test "" "accepted" refl (ground (arith, empty, h))

    module _ (stdout : String) where
      scanned-accepted :
          (status : String)
          → or_scanned worker stdout status ≡ "accepted"
          → (status ≡ "accepted")
            ⊎ (contains (codes "accepted") (codes (worker.lower_text stdout)) ≡ true)
      unfolding or_scanned
      scanned-accepted status h = elim (Bool-cases (status == "")) [
        | inl blank ↦ inr (first_in-accepted (codes (worker.lower_text stdout)) (rw blank at h))
        | inr named ↦ inl (rw named at h)
      ]

      same_object : {a b : Fields} → object_of (obj a) ≡ returned b → b ≡ a
      same_object h = ground (arith, h)

      object-accepted :
          (j : Option Json) (d : Fields)
          → object_of (or_empty j) ≡ returned d
          → named_status worker d ≡ returned "accepted"
          → j ≡ some (obj d)
      object-accepted none d e names = absurd (end_names_nothing (rw (same_object e) at names))
      object-accepted (some j) d e names = elim (object_or_empty j e) [
        | inl is ↦ rw is refl
        | inr nothing ↦ absurd (end_names_nothing (rw nothing at names))
      ]

      status-accepted :
          (d : Fields) (s : Attempt String)
          → object_of (or_empty (json_from worker.rt stdout)) ≡ returned d
          → named_status worker d ≡ s
          → (elim s as (λ s. Attempt String) [
            | raised ↦ raised
            | returned status ↦ returned (or_scanned worker stdout status)
          ])
            ≡ returned "accepted"
          → SaysAccepted stdout
      status-accepted d raised e names h = cc h
      status-accepted d (returned status) e names h =
          elim (scanned-accepted status (ground (arith, h))) [
            | inl is ↦
                let named : named_status worker d ≡ returned "accepted" = rw is at names in
                inl (
                  d,
                  object-accepted (json_from worker.rt stdout) d e named,
                  named_status-accepted d named,
                )
            | inr text ↦ inr text
          ]

      read_status-accepted : read_status worker stdout ≡ returned "accepted" → SaysAccepted stdout
      unfolding read_status
      read_status-accepted = read (object_of (or_empty (json_from worker.rt stdout))) refl
        where
          read :
              (o : Attempt Fields)
              → object_of (or_empty (json_from worker.rt stdout)) ≡ o
              → (elim o as (λ o. Attempt String) [
                | raised ↦ raised
                | returned d ↦ elim (named_status worker d) [
                  | raised ↦ raised
                  | returned status ↦ returned (or_scanned worker stdout status)
                ]
              ])
                ≡ returned "accepted"
              → SaysAccepted stdout
          read raised e h = cc h
          read (returned d) e h = status-accepted d (named_status worker d) e refl h

  -- The command line was asked for the session and for the job's status, said yes to both, and its answer
  -- to the second says `accepted`.
  abbrev pub IsAccepted : Json → List Command → Type 0
  IsAccepted job_id log =
      (job : String) × (job_id ≡ str job)
      × (g : CliResult) × (worker.cli log (session_check worker) ≡ returned g)
      × (g.ok ≡ true)
      × (s : CliResult) × (worker.cli (log ++ session_check worker ∷ []) (status_of worker job)
          ≡ returned s)
      × (s.ok ≡ true)
      × SaysAccepted s.stdout

  -- The worker delivers only where the wallet has said `accepted`. However `process` ends, it has
  -- delivered at most once; and if it has, then the run was not dry, and before that the wallet's session
  -- was live, and its answer to the status command is an object that says `accepted`, in lower case,
  -- under `status`, under `state` or under the `status` of its `task`, or is a text in which this word
  -- stands somewhere. It is taken that the empty text, made a text and put in lower case, is empty.
  pub delivers_after_acceptance :
      (job_id task_id deliverable : Json) (dry_run : Bool) (log : List Command)
      → lower_str (str "") ≡ ""
      → (deliveries (process worker job_id task_id deliverable dry_run log).1 ≡ deliveries log)
        ⊎ ((dry_run ≡ false)
            × IsAccepted job_id log
            × (deliveries (process worker job_id task_id deliverable dry_run log).1
                ≡ deliveries log + 1))
  delivers_after_acceptance job_id task_id deliverable dry_run log empty =
      elim (delivers_only_funded_work worker job_id task_id deliverable dry_run log) [
        | inl none_sent ↦ inl none_sent
        | inr (wet, (job, is, g, live, ok, s, said, fine, reads), sent) ↦ inr (
          wet,
          (job, is, g, live, ok, s, said, fine, read_status-accepted empty s.stdout reads),
          sent,
        )
      ]
