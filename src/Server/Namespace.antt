-- ===== src/Server/Namespace.antt =====
-- /public/commit and /public/verify of asp/server.py stay inside the keys that begin with `public:`.
use merita.Prelude.{
  ℕ, List, String, Bool, true, false, ◌≡◌, ◌≢◌, refl, inl, inr, ◌||◌, Option, none, some, ◌==◌,
  arith, Bool-cases, Option-cases, strip_text, ltb, length, codes, eq_iff,
}
use merita.Prelude.Attempt.{Attempt, returned, raised}
use merita.Json.{Json, Fields, get}
use merita.Models.{Verdict}
use merita.Store
use merita.Store.{Commitment, Db, Result, ok, value_error, db_error, find, new_row, answer_existing}
use merita.Store.Commits.{commit-fresh, commit-existing, find-append}
use merita.Store.History.{record_verdict_keeps}
use merita.Server.{
  Site, Host, Response, Request, public_verify, text_at, public_commit, fields_of, judge_free,
  answer_free, verify_demo, commit_demo, answer_demo, crashed, namespaced, log_line,
}

-- The two ledgers hold the same rows under the demo's keys.
abbrev pub SameDemo : Db → Db → Type 0
SameDemo d1 d2 =
    (s : String) → find (namespaced s) d1.commitments ≡ find (namespaced s) d2.commitments

-- A key that no demo task has.
abbrev pub IsReal : String → Type 0
IsReal t = (s : String) → namespaced s ≢ t

commit_elsewhere :
    (sha256 : List ℕ → String) (up : Bool) (n k s p t : String) (db : Db)
    → k ≢ t
    → find t (Store.commit sha256 up n k s p db).1.commitments ≡ find t db.commitments
unfolding Store.commit
commit_elsewhere sha256 false n k s p t db other = refl
commit_elsewhere sha256 true n k s p t db other = elim (Option-cases (find k db.commitments)) [
  | inl fresh ↦
      unfold new_row in
      rw (commit-fresh sha256 n k s p db fresh) (
        rw (find-append t db.commitments (new_row sha256 n k s p))
          (ground (arith, eq_iff k t, other)))
  | inr (old, e) ↦ rw (commit-existing sha256 n k s p db e) refl
]

commit_same_answer :
    (sha256 : List ℕ → String) (up : Bool) (n k s p : String) (d1 d2 : Db)
    → find k d1.commitments ≡ find k d2.commitments
    → (Store.commit sha256 up n k s p d1).0 ≡ (Store.commit sha256 up n k s p d2).0
unfolding Store.commit
commit_same_answer sha256 false n k s p d1 d2 same = refl
commit_same_answer sha256 true n k s p d1 d2 same = elim (Option-cases (find k d1.commitments)) [
  | inl fresh ↦
      rw (commit-fresh sha256 n k s p d1 fresh, commit-fresh sha256 n k s p d2 (rw same at fresh))
        refl
  | inr (old, e) ↦
      rw (commit-existing sha256 n k s p d1 e, commit-existing sha256 n k s p d2 (rw same at e))
        refl
]

module _ (h : Host) where
  -- What two runs of a demo route on two sites have in common, and what one leaves of a real key.
  abbrev Apart : Site → Response × Site → Type 0
  Apart site (r, site') =
      (t : String) → IsReal t → find t site'.ledger.commitments ≡ find t site.ledger.commitments

  answer_free-Apart :
      (surface key : String) (row : Commitment) (site : Site) (a : Attempt Verdict)
      → Apart site (answer_free h surface key row a site)
  answer_free-Apart surface key row site raised t real = refl
  answer_free-Apart surface key row site (returned v) t real =
      let same =
        record_verdict_keeps h.rt.sha256 h.real (h.up 1) (log_line h key row v none none surface)
          site.ledger in
      rw same refl

  judge_free-Apart :
      (surface missing : String) (d : Json) (key : String) (o : Result (Option Commitment))
      (site : Site)
      → Apart site (judge_free h surface missing d key o site)
  judge_free-Apart surface missing d key (ok none) site t real = refl
  judge_free-Apart surface missing d key (ok (some row)) site t real =
      answer_free-Apart surface key row site (h.referee row.source row.nonce row.commitment d) t
        real
  judge_free-Apart surface missing d key (value_error e) site t real = refl
  judge_free-Apart surface missing d key db_error site t real = refl

  answer_free-same :
      (surface key : String) (row : Commitment) (s1 s2 : Site) (a : Attempt Verdict)
      → (answer_free h surface key row a s1).0 ≡ (answer_free h surface key row a s2).0
  answer_free-same surface key row s1 s2 raised = refl
  answer_free-same surface key row s1 s2 (returned v) = refl

  judge_free-same :
      (surface missing : String) (d : Json) (key : String) (o : Result (Option Commitment))
      (s1 s2 : Site)
      → (judge_free h surface missing d key o s1).0 ≡ (judge_free h surface missing d key o s2).0
  judge_free-same surface missing d key (ok none) s1 s2 = refl
  judge_free-same surface missing d key (ok (some row)) s1 s2 =
      answer_free-same surface key row s1 s2 (h.referee row.source row.nonce row.commitment d)
  judge_free-same surface missing d key (value_error e) s1 s2 = refl
  judge_free-same surface missing d key db_error s1 s2 = refl

  get_same :
      (key : String) (s1 s2 : Site)
      → find key s1.ledger.commitments ≡ find key s2.ledger.commitments
      → Store.get (h.up 0) key s1.ledger ≡ Store.get (h.up 0) key s2.ledger
  unfolding Store.get
  get_same key s1 s2 same = rw same refl

  -- Two runs on sites that agree on the demo's keys answer the same, and each leaves the real keys.
  abbrev Confined : (Site → Response × Site) → Type 0
  Confined f =
      ((site : Site) → Apart site (f site))
      × ((s1 s2 : Site) → SameDemo s1.ledger s2.ledger → (f s1).0 ≡ (f s2).0)

  verify_demo-Confined : (task_id : String) (d : Json) → Confined (verify_demo h task_id d)
  unfolding verify_demo
  verify_demo-Confined task_id d = elim (Bool-cases (task_id == "")) [
    | inl e ↦ rw e (λ site t real. refl, λ s1 s2 same. refl)
    | inr e ↦ rw e (
      λ site.
          judge_free-Apart "demo" _ d (namespaced task_id)
            (Store.get (h.up 0) (namespaced task_id) site.ledger) site,
      λ s1 s2 same. rw (get_same (namespaced task_id) s1 s2 (same task_id)) (
          judge_free-same "demo" _ d (namespaced task_id)
            (Store.get (h.up 0) (namespaced task_id) s2.ledger) s1 s2),
    )
  ]

  answer_demo-Apart :
      (task_id : String) (p : Result String × Db) (site : Site)
      → ((t : String) → IsReal t → find t p.1.commitments ≡ find t site.ledger.commitments)
      → Apart site (answer_demo h task_id p site)
  answer_demo-Apart task_id (ok c, db) site k = k
  answer_demo-Apart task_id (value_error e, db) site k = k
  answer_demo-Apart task_id (db_error, db) site k = k

  answer_demo-same :
      (task_id : String) (p1 p2 : Result String × Db) (s1 s2 : Site)
      → p1.0 ≡ p2.0
      → (answer_demo h task_id p1 s1).0 ≡ (answer_demo h task_id p2 s2).0
  answer_demo-same task_id (r1, d1) (r2, d2) s1 s2 e = rw e (of_result r2)
    where
      of_result :
          (r : Result String)
          → (answer_demo h task_id (r, d1) s1).0 ≡ (answer_demo h task_id (r, d2) s2).0
      of_result (ok c) = refl
      of_result (value_error e) = refl
      of_result db_error = refl

  commit_demo-Confined :
      (task_id source spec : String) → Confined (commit_demo h task_id source spec)
  unfolding commit_demo
  commit_demo-Confined task_id source spec = elim (Bool-cases (task_id == "" || source == "")) [
    | inl e ↦ rw e (λ site t real. refl, λ s1 s2 same. refl)
    | inr e ↦
        elim (Bool-cases (
          ltb 4000 (length (codes source))
          || ltb 2000 (length (codes spec))
          || ltb 80 (length (codes task_id)))) [
            | inl e' ↦ rw (e, e') (λ site t real. refl, λ s1 s2 same. refl)
            | inr e' ↦
                rw (e, e')
                  (
                    λ site.
                        answer_demo-Apart task_id
                          (Store.commit h.rt.sha256 (h.up 0) (h.nonce 0) (namespaced task_id) source
                            spec site.ledger)
                          site
                          (λ t real.
                            commit_elsewhere h.rt.sha256 (h.up 0) (h.nonce 0) (namespaced task_id)
                              source spec t site.ledger (real task_id)),
                    λ s1 s2 same.
                        answer_demo-same task_id
                          (Store.commit h.rt.sha256 (h.up 0) (h.nonce 0) (namespaced task_id) source
                            spec s1.ledger)
                          (Store.commit h.rt.sha256 (h.up 0) (h.nonce 0) (namespaced task_id) source
                            spec s2.ledger)
                          s1 s2
                          (commit_same_answer h.rt.sha256 (h.up 0) (h.nonce 0) (namespaced task_id)
                            source spec s1.ledger s2.ledger (same task_id)),
                  )
          ]
  ]

  on_fields-Confined :
      (f : Fields → Site → Response × Site)
      → ((d : Fields) → Confined (f d))
      → (o : Option Fields)
      → Confined
          (λ site. elim o as (λ o. Response × Site) [ none ↦ (crashed, site) | some d ↦ f d site ])
  on_fields-Confined f k none = (λ site t real. refl, λ s1 s2 same. refl)
  on_fields-Confined f k (some d) = k d

  public_verify-Confined : (r : Request) → Confined (public_verify h r)
  unfolding public_verify
  public_verify-Confined r = elim (Bool-cases (r.method == "OPTIONS")) [
    | inl e ↦ rw e (λ site t real. refl, λ s1 s2 same. refl)
    | inr e ↦ elim (Option-cases r.body) [
      | inl n ↦ rw (e, n) (λ site t real. refl, λ s1 s2 same. refl)
      | inr (body, b) ↦
          rw (e, b)
            (on_fields-Confined
              (λ d site.
                verify_demo h (strip_text (text_at h "task_id" d)) (get "deliverable" d) site)
              (λ d. verify_demo-Confined (strip_text (text_at h "task_id" d)) (get "deliverable" d))
              (fields_of h body))
    ]
  ]

  public_commit-Confined : (r : Request) → Confined (public_commit h r)
  unfolding public_commit
  public_commit-Confined r = elim (Bool-cases (r.method == "OPTIONS")) [
    | inl e ↦ rw e (λ site t real. refl, λ s1 s2 same. refl)
    | inr e ↦ elim (Option-cases r.body) [
      | inl n ↦ rw (e, n) (λ site t real. refl, λ s1 s2 same. refl)
      | inr (body, b) ↦
          rw (e, b)
            (on_fields-Confined
              (λ d site.
                commit_demo h (strip_text (text_at h "task_id" d)) (text_at h "acceptance_test" d)
                  (text_at h "spec" d) site)
              (λ d.
                commit_demo-Confined (strip_text (text_at h "task_id" d))
                  (text_at h "acceptance_test" d) (text_at h "spec" d))
              (fields_of h body))
    ]
  ]

  -- The free routes and the real tasks are apart. Whatever a request to /public/commit or
  -- /public/verify holds, a key without the demo's prefix has the same row after it as before; and the
  -- answer does not depend on such rows: on two ledgers with the same rows under the demo's keys, in
  -- the same surroundings, it is the same.
  pub demo_is_confined :
      (r : Request) (s1 s2 : Site) (t : String)
      → IsReal t
      → SameDemo s1.ledger s2.ledger
      → (find t (public_commit h r s1).1.ledger.commitments ≡ find t s1.ledger.commitments)
        × (find t (public_verify h r s1).1.ledger.commitments ≡ find t s1.ledger.commitments)
        × ((public_commit h r s1).0 ≡ (public_commit h r s2).0)
        × ((public_verify h r s1).0 ≡ (public_verify h r s2).0)
  demo_is_confined r s1 s2 t real same = (
    (public_commit-Confined r).0 s1 t real,
    (public_verify-Confined r).0 s1 t real,
    (public_commit-Confined r).1 s1 s2 same,
    (public_verify-Confined r).1 s1 s2 same,
  )
