-- ===== src/Server/Ledger.antt =====
-- The ledger of asp/server.py behind its tools and routes: what a request of any kind leaves, and what
-- stands behind a verdict.
use merita.Prelude.{
  String, Bool, true, false, ◌≡◌, refl, inl, inr, ◌||◌, Option, none, some, ◌==◌, Bool-cases, ltb,
  length, codes,
}
use merita.Prelude.Attempt.{Attempt, returned, raised}
use merita.Json.{Json}
use merita.Models.{Verdict}
use merita.Store
use merita.Store.{Commitment, Db, Result, ok, value_error, db_error, find}
use merita.Store.Commits.{commit_keeps}
use merita.Store.History.{record_verdict_keeps}
use merita.Paywall.{Payment}
use merita.HttpDoor.Lookups.{Kept}
use merita.Server.{
  Site, Host, Judgement, Response, verdict, answer_commit, log_if, receipt_tx, amount_of,
  answer_verdict, judge_found, answer_free, judge_free, verify_demo, answer_demo, commit_demo,
  namespaced, log_line,
}

-- A found row was looked up in a ledger that holds it.
pub get-found :
    (up : Bool) (t : String) (db : Db) (row : Commitment)
    → Store.get up t db ≡ ok (some row)
    → find t db.commitments ≡ some row
unfolding Store.get
get-found true t db row e = cc
get-found false t db row e = cc

module _ (h : Host) where
  -- The judgement is for the key, and it is the referee's, on the deliverable and on the test, the nonce
  -- and the hash of the row that the ledger has under the key.
  abbrev pub IsRuled : String → Json → Judgement → Db → Type 0
  IsRuled key deliverable j db =
      (j.key ≡ key)
      × (row : Commitment) × (find key db.commitments ≡ some row)
      × (v : Verdict) × (h.referee row.source row.nonce row.commitment deliverable ≡ returned v)
      × (j.passed ≡ v.passed)
      × (j.confidence ≡ v.confidence)
      × (j.reveal_valid ≡ v.reveal_valid)
      × (j.commitment ≡ row.commitment)

  -- A verdict is for the key and on the deliverable that were named.
  abbrev pub Backed : Option (String × Json) → Response → Db → Type 0
  Backed named (verdict j) db =
      (key : String) × (deliverable : Json) × (named ≡ some (key, deliverable))
      × IsRuled key deliverable j db
  Backed named other db = Unit

  -- No row is lost, and a verdict is backed by a row; and the graph is the same.
  abbrev pub IsFaithful : Option (String × Json) → Site → Response × Site → Type 0
  IsFaithful named site (r, site') = Kept site.ledger site'.ledger × Backed named r site'.ledger

  abbrev pub IsQuiet : Option (String × Json) → Site → Response × Site → Type 0
  IsQuiet named site (r, site') =
      Kept site.ledger site'.ledger × Backed named r site'.ledger × (site'.graph ≡ site.graph)

  answer_verdict-IsQuiet :
      (t : String) (pay : Option Payment) (row : Commitment) (deliverable : Json) (site : Site)
      → find t site.ledger.commitments ≡ some row
      → IsQuiet (some (t, deliverable)) site (
          answer_verdict h t pay row
            (h.referee row.source row.nonce row.commitment deliverable)
            site)
  unfolding answer_verdict
  answer_verdict-IsQuiet t pay row deliverable site found =
      ruled (h.referee row.source row.nonce row.commitment deliverable) refl
    where
      logged :
          (v : Verdict) (tx amount : Option (Option String))
          → (log_if h t row v tx amount site.ledger).commitments ≡ site.ledger.commitments
      logged v (some tx) (some amount) =
          record_verdict_keeps h.rt.sha256 h.real (h.up 1) _ site.ledger
      logged v (some tx) none = refl
      logged v none _ = refl

      ruled :
          (a : Attempt Verdict)
          → h.referee row.source row.nonce row.commitment deliverable ≡ a
          → IsQuiet (some (t, deliverable)) site (answer_verdict h t pay row a site)
      ruled raised e = (λ s r k. k, tt, refl)
      ruled (returned v) e =
          let same = logged v (h.sql_text (receipt_tx h pay)) (h.sql_text (amount_of h pay)) in
          (
            λ s r k. rw same k,
            (t, deliverable, refl, (refl, row, rw same found, v, e, refl, refl, refl, refl)),
            refl,
          )

  pub judge_found-IsQuiet :
      (t : String) (d : Json) (pay : Option Payment) (site : Site) (o : Result (Option Commitment))
      → Store.get (h.up 0) t site.ledger ≡ o
      → IsQuiet (some (t, d)) site (judge_found h t d pay o site)
  unfolding judge_found
  judge_found-IsQuiet t d pay site (ok none) e = (λ s r k. k, tt, refl)
  judge_found-IsQuiet t d pay site (ok (some row)) e =
      answer_verdict-IsQuiet t pay row d site (get-found (h.up 0) t site.ledger row e)
  judge_found-IsQuiet t d pay site (value_error text) e = (λ s r k. k, tt, refl)
  judge_found-IsQuiet t d pay site db_error e = (λ s r k. k, tt, refl)

  answer_free-IsQuiet :
      (surface key : String) (row : Commitment) (deliverable : Json) (site : Site)
      (a : Attempt Verdict)
      → find key site.ledger.commitments ≡ some row
      → h.referee row.source row.nonce row.commitment deliverable ≡ a
      → IsQuiet (some (key, deliverable)) site (answer_free h surface key row a site)
  answer_free-IsQuiet surface key row d site raised found e = (λ s r k. k, tt, refl)
  answer_free-IsQuiet surface key row d site (returned v) found e =
      let same =
        record_verdict_keeps h.rt.sha256 h.real (h.up 1) (log_line h key row v none none surface)
          site.ledger in
      (
        λ s r k. rw same k,
        (key, d, refl, (refl, row, rw same found, v, e, refl, refl, refl, refl)),
        refl,
      )

  pub judge_free-IsQuiet :
      (surface missing : String) (d : Json) (key : String) (site : Site)
      (o : Result (Option Commitment))
      → Store.get (h.up 0) key site.ledger ≡ o
      → IsQuiet (some (key, d)) site (judge_free h surface missing d key o site)
  judge_free-IsQuiet surface missing d key site (ok none) e = (λ s r k. k, tt, refl)
  judge_free-IsQuiet surface missing d key site (ok (some row)) e =
      answer_free-IsQuiet surface key row d site (h.referee row.source row.nonce row.commitment d)
        (get-found (h.up 0) key site.ledger row e) refl
  judge_free-IsQuiet surface missing d key site (value_error text) e = (λ s r k. k, tt, refl)
  judge_free-IsQuiet surface missing d key site db_error e = (λ s r k. k, tt, refl)

  pub verify_demo-IsQuiet :
      (task_id : String) (d : Json) (site : Site)
      → IsQuiet (some (namespaced task_id, d)) site (verify_demo h task_id d site)
  unfolding verify_demo
  verify_demo-IsQuiet task_id d site = elim (Bool-cases (task_id == "")) [
    | inl e ↦ rw e (λ s r k. k, tt, refl)
    | inr e ↦ rw e (
        judge_free-IsQuiet "demo" _ d (namespaced task_id) site
          (Store.get (h.up 0) (namespaced task_id) site.ledger) refl)
  ]

  answer_demo-Kept :
      (task_id : String) (p : Result String × Db) (site : Site)
      → Kept site.ledger p.1
      → IsQuiet none site (answer_demo h task_id p site)
  answer_demo-Kept task_id (ok c, db) site kept = (kept, tt, refl)
  answer_demo-Kept task_id (value_error e, db) site kept = (kept, tt, refl)
  answer_demo-Kept task_id (db_error, db) site kept = (kept, tt, refl)

  pub answer_commit-Kept :
      (task_id spec : String) (p : Result String × Db) (site : Site)
      → Kept site.ledger p.1
      → IsFaithful none site (answer_commit h task_id spec p site)
  unfolding answer_commit
  answer_commit-Kept task_id spec (ok c, db) site kept = (kept, tt)
  answer_commit-Kept task_id spec (value_error e, db) site kept = (kept, tt)
  answer_commit-Kept task_id spec (db_error, db) site kept = (kept, tt)

  pub commit_demo-IsQuiet :
      (task_id source spec : String) (site : Site)
      → IsQuiet none site (commit_demo h task_id source spec site)
  unfolding commit_demo
  commit_demo-IsQuiet task_id source spec site = elim (Bool-cases (task_id == "" || source == "")) [
    | inl e ↦ rw e (λ s r k. k, tt, refl)
    | inr e ↦
        elim (Bool-cases (
          ltb 4000 (length (codes source))
          || ltb 2000 (length (codes spec))
          || ltb 80 (length (codes task_id)))) [
            | inl e' ↦ rw (e, e') (λ s r k. k, tt, refl)
            | inr e' ↦
                rw (e, e')
                  (answer_demo-Kept task_id _ site (
                    commit_keeps h.rt.sha256 (h.nonce 0) (namespaced task_id) source spec
                      site.ledger (h.up 0)))
          ]
  ]
