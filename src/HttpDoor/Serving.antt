-- ===== src/HttpDoor/Serving.antt =====
-- The steps of asp/http_x402.py after a payment is honoured: what each leaves, however it ends.
use merita.Prelude.{
  String, Bool, true, ◌≡◌, refl, inl, inr, Option, none, some, Bool-cases, if◌then◌else◌, is_some,
}
use merita.Json.{Json, truthy, get}
use merita.Models.{Verdict}
use merita.Facilitator.{Settlement}
use merita.Store.{Commitment, Db, find}
use merita.Store.History.{record_verdict_keeps}
use merita.HttpDoor.{
  Door, Job, Judged, judged, timed_out, broken, Response, VerdictBody, Request, pure, get_row,
  demonstration, terms, asked, choose_job, first_row, second_row, heard, judge, write_verdict,
  deliver, receipt_of, result_of, log_verdict, serve,
}
use merita.HttpDoor.Control.{Ends, >>=-Ends}
use merita.HttpDoor.Lookups.{
  Kept, IsFailure, HasRow, Looked, Sealed, get_row-Ends, first_row-Ends, second_row-Ends,
}

module _ (door : Door) where
  -- What a verdict says of the ledger: its task has a row there, and the referee gave this verdict on the
  -- source, the nonce and the hash of this row.
  abbrev pub IsJudgedBy : Commitment → VerdictBody → Type 0
  IsJudgedBy row v =
      (deliverable : Json) × (j : Verdict) × (door.referee row.source row.nonce row.commitment
          deliverable
        ≡ judged j)
      × (v.passed ≡ j.passed)
      × (v.settle_escrow ≡ j.passed)
      × (v.commitment ≡ row.commitment)

  abbrev pub IsHonest : VerdictBody → Db → Type 0
  IsHonest v db =
      (v.precommitted ≡ true)
      × (v.charged ≡ true)
      × (row : Commitment) × (find v.task_id db.commitments ≡ some row)
      × IsJudgedBy row v

  judge-Ends :
      (row : Commitment) (deliverable : Json) (db db' : Db)
      → Kept db db'
      → Ends
          (λ v d.
            (d ≡ db') × (door.referee row.source row.nonce row.commitment deliverable ≡ judged v))
          (λ r d. Kept db d × IsFailure true r)
          (Kept db)
          (judge door row deliverable db')
  unfolding judge Ends
  judge-Ends row deliverable db db' kept =
      split (door.referee row.source row.nonce row.commitment deliverable)
    where
      split :
          (x : Judged)
          → Ends
              (λ v d. (d ≡ db') × (x ≡ judged v))
              (λ r d. Kept db d × IsFailure true r)
              (Kept db)
              (heard door x db')
      split (judged v) = (refl, refl)
      split timed_out = (kept, (503, "verify_timeout", refl))
      split broken = kept

  log_verdict-Ends :
      (job : Job) (row : Commitment) (v : Verdict) (tx : Json) (db : Db)
      (S : Response → Db → Type 0) (F : Db → Type 0)
      → Ends (λ b db'. db'.commitments ≡ db.commitments) S F (log_verdict door job row v tx db)
  unfolding log_verdict Ends
  log_verdict-Ends job row v tx db S F =
      split (door.sql_text tx) (door.sql_text (get "amount" (terms door)))
    where
      split :
          (hash amount : Option (Option String))
          → Ends
              (λ b db'. db'.commitments ≡ db.commitments)
              S
              F
              (write_verdict door job row v hash amount db)
      split (some hash) (some amount) =
          record_verdict_keeps door.rt.sha256 door.real (door.up 7) _ db
      split (some hash) none = refl
      split none _ = refl

  choose_job-Ends :
      (job : Job) (db : Db) (S : Response → Db → Type 0) (F : Db → Type 0)
      → F db
      → Ends (λ chosen db'. db' ≡ db) S F (choose_job door job db)
  unfolding choose_job Ends
  choose_job-Ends job db S F f = elim (Bool-cases (truthy job.task_id)) [
    | inr e ↦ rw (e, Ends) refl
    | inl e ↦ elim (Bool-cases (truthy job.inline_test)) [
      | inl e' ↦ rw (e, e', Ends) refl
      | inr e' ↦
          rw (e, e')
            (>>=-Ends (Looked job.task_id db) (λ chosen db'. db' ≡ db) S F
              (get_row door 0 job.task_id)
              (λ row. pure (if is_some row then job else demonstration door)) db
              (get_row-Ends door 0 job.task_id db S F f) (λ o db' (same, t, is, found). same))
    ]
  ]

  deliver-Ends :
      (settled : Settlement) (job : Job) (db db1 : Db) (p : Commitment × Bool) (db2 : Db)
      → Kept db db1
      → Sealed job db1 p db2
      → Ends
          (λ v db'. Kept db db' × IsHonest v db')
          (λ r db'. Kept db db' × IsFailure true r)
          (Kept db)
          (deliver door settled job p db2)
  unfolding deliver Ends
  deliver-Ends settled job db db1 (row, precommitted) db2 kept (same, is_true, t, e, found) =
      let S : Response → Db → Type 0 = λ r db'. Kept db db' × IsFailure true r in
      let H : VerdictBody → Db → Type 0 = λ v db'. Kept db db' × IsHonest v db' in
      >>=-Ends
        (λ v d.
          (d ≡ db2) × (door.referee row.source row.nonce row.commitment job.deliverable ≡ judged v))
        H S (Kept db) (judge door row job.deliverable) _ db2
        (judge-Ends row job.deliverable db db2 (rw same kept))
        (λ v db3 (unchanged, said).
          >>=-Ends (λ b d. d.commitments ≡ db3.commitments) H S (Kept db)
            (log_verdict door job row v (receipt_of door settled).1)
            (λ b. pure (result_of door settled job (row, precommitted) v)) db3
            (log_verdict-Ends job row v (receipt_of door settled).1 db3 S (Kept db))
            (λ b db4 rows. (
              (λ t' r' h. rw (rows, unchanged, same) (kept t' r' h)),
              (
                is_true,
                refl,
                row,
                rw (rows, unchanged, same, e) found,
                (job.deliverable, v, said, refl, refl, refl),
              ),
            )))

  -- After a payment is honoured, a verdict is honest, any other answer says that the buyer was charged,
  -- and no row of the ledger is lost.
  pub serve-Ends :
      (settled : Settlement) (request : Request) (db : Db)
      → Ends
          (λ v db'. Kept db db' × IsHonest v db')
          (λ r db'. Kept db db' × IsFailure true r)
          (Kept db)
          (serve door settled request db)
  unfolding serve Ends
  serve-Ends settled request db =
      let S : Response → Db → Type 0 = λ r db'. Kept db db' × IsFailure true r in
      let H : VerdictBody → Db → Type 0 = λ v db'. Kept db db' × IsHonest v db' in
      >>=-Ends (λ job db'. db' ≡ db) H S (Kept db) (choose_job door (asked door request)) _ db
        (choose_job-Ends (asked door request) db S (Kept db) (λ t r h. h))
        (λ job db0 same.
          >>=-Ends (λ row db'. Kept db db' × HasRow job.task_id db') H S (Kept db)
            (first_row door job) _ db0 (rw same (first_row-Ends door job db))
            (λ first db1 (kept, has).
              >>=-Ends (Sealed job db1) H S (Kept db) (second_row door job) _ db1
                (second_row-Ends door job db1 S (Kept db) has kept)
                (λ p db2 sealed. deliver-Ends settled job db db1 p db2 kept sealed)))
