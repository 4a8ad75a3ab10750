-- ===== src/HttpDoor/Lookups.antt =====
-- The lookups of asp/http_x402.py and the sealing of a test that came with the request: what each step
-- leaves in the database, however it ends.
use merita.Prelude.{
  ℕ, String, Bool, true, false, ◌≡◌, refl, ◌⊎◌, inl, inr, Option, none, some, Bool-cases,
}
use merita.Json.{Json, str}
use merita.Store
use merita.Store.{Commitment, Db, Result, ok, value_error, db_error, find, record_verdict}
use merita.Store.Commits.{commit_keeps, commit_fails_or_records}
use merita.HttpDoor.{
  Door, Job, Response, failed, go, stop, fault, get_row, seal, reread, row_or_seal,
  row_or_seal_again, text_of, or_no_commitment, first_row, second_row,
}
use merita.HttpDoor.Control.{Ends, >>=-Ends}

-- Every row of the one database is in the other.
abbrev pub Kept : Db → Db → Type 0
Kept db db' =
    (t : String) (r : Commitment) → find t db.commitments ≡ some r → find t db'.commitments ≡ some r

-- A task that has a row.
abbrev pub HasRow : Json → Db → Type 0
HasRow task_id db =
    (t : String) × (task_id ≡ str t) × (r : Commitment) × (find t db.commitments ≡ some r)

-- An error that says whether the buyer was charged.
abbrev pub IsFailure : Bool → Response → Type 0
IsFailure charged r = (code : ℕ) × (e : String) × (r ≡ failed code e (some charged))

-- What a lookup of `v` finds.
abbrev pub Looked : Json → Db → Option Commitment → Db → Type 0
Looked v db o db' = (db' ≡ db) × (t : String) × (v ≡ str t) × (find t db.commitments ≡ o)

-- The second lookup changes nothing, finds the row, and calls it sealed in advance.
abbrev pub Sealed : Job → Db → Commitment × Bool → Db → Type 0
Sealed job db p db' =
    (db' ≡ db)
    × (p.1 ≡ true)
    × (t : String) × (job.task_id ≡ str t)
    × (find t db.commitments ≡ some p.0)

module _ (door : Door) where
  get_row-cases :
      (n : ℕ) (t : String) (db : Db)
      → (get_row door n (str t) db ≡ (go (find t db.commitments), db))
        ⊎ (get_row door n (str t) db ≡ (fault, db))
  unfolding get_row Store.get
  get_row-cases n t db = elim (Bool-cases (door.up n)) [
    | inl e ↦ inl (rw (e, get_row) refl)
    | inr e ↦ inr (rw (e, get_row) refl)
  ]

  pub get_row-Ends :
      (n : ℕ) (v : Json) (db : Db) (S : Response → Db → Type 0) (F : Db → Type 0)
      → F db
      → Ends (Looked v db) S F (get_row door n v db)
  unfolding get_row Ends
  get_row-Ends n (str t) db S F h = elim (get_row-cases n t db) [
    | inl e ↦ rw (e, Ends) (refl, t, refl, refl)
    | inr e ↦ rw (e, Ends) h
  ]
  get_row-Ends n _ db S F h = h

  -- A commit that reached the database leaves a row for its task.
  seal-Ends :
      (n : ℕ) (charged : Bool) (t : String) (source : Json) (db : Db)
      → Ends
          (λ refused db'. Kept db db' × (r : Commitment) × (find t db'.commitments ≡ some r))
          (λ r db'. Kept db db' × IsFailure charged r)
          (λ db'. Kept db db')
          (seal door n charged t source db)
  unfolding seal Ends
  seal-Ends n charged t (str source) db =
      split (Store.commit door.rt.sha256 (door.up n) (door.nonce n) t source "supplied inline" db)
        (commit_fails_or_records door.rt.sha256 (door.nonce n) t source "supplied inline" db
          (door.up n))
        (commit_keeps door.rt.sha256 (door.nonce n) t source "supplied inline" db (door.up n))
    where
      split :
          (p : Result String × Db)
          → (p ≡ (db_error, db)) ⊎ ((r : Commitment) × (find t p.1.commitments ≡ some r))
          → Kept db p.1
          → Ends {A = Bool}
              (λ refused db'. Kept db db' × (r : Commitment) × (find t db'.commitments ≡ some r))
              (λ r db'. Kept db db' × IsFailure charged r)
              (λ db'. Kept db db')
              (let (r, db') = p in
                elim r [
                  | ok c ↦ (go false, db')
                  | value_error e ↦ (go true, db')
                  | db_error ↦ (stop (failed 500 "commit_failed" (some charged)), db')
                ])
      split (ok c, db') (inl e) k = cc
      split (ok c, db') (inr (r, h)) k = (k, r, h)
      split (value_error w, db') (inl e) k = cc
      split (value_error w, db') (inr (r, h)) k = (k, r, h)
      split (db_error, db') h k = (k, (500, "commit_failed", refl))
  seal-Ends n charged t _ db = (λ t r h. h, (500, "commit_failed", refl))

  reread-Ends :
      (n : ℕ) (charged refused : Bool) (t : String) (db : Db) (r : Commitment)
      (S : Response → Db → Type 0) (F : Db → Type 0)
      → find t db.commitments ≡ some r
      → S (failed 500 "commit_failed" (some charged)) db
      → F db
      → Ends (λ o db'. (db' ≡ db) × (o ≡ some r)) S F (reread door n charged refused (str t) db)
  unfolding reread Ends
  reread-Ends n charged true t db r S F h s f = elim (get_row-cases n t db) [
    | inl e ↦ rw (e, Ends) (refl, h)
    | inr e ↦ rw (e, Ends) f
  ]
  reread-Ends n charged false t db r S F h s f = elim (get_row-cases n t db) [
    | inl e ↦ rw (e, Ends) (refl, h)
    | inr e ↦ rw (e, Ends) s
  ]

  row_or_seal-Ends :
      (job : Job) (db : Db) (t : String)
      → job.task_id ≡ str t
      → (o : Option Commitment) → find t db.commitments ≡ o
      → Ends
          (λ row db'. Kept db db' × HasRow job.task_id db')
          (λ r db'. Kept db db' × IsFailure true r)
          (Kept db)
          (row_or_seal door job o db)
  unfolding row_or_seal Ends
  row_or_seal-Ends job db t e (some row) found = (λ t r h. h, (t, e, row, found))
  row_or_seal-Ends job db t e none found =
      let S : Response → Db → Type 0 = λ r db'. Kept db db' × IsFailure true r in
      let H : Commitment → Db → Type 0 = λ row db'. Kept db db' × HasRow job.task_id db' in
      >>=-Ends (λ refused db'. Kept db db' × (r : Commitment) × (find t db'.commitments ≡ some r)) H
        S (Kept db) (seal door 2 true (text_of door job.task_id) job.inline_test) _ db
        (rw e (seal-Ends 2 true t job.inline_test db))
        (λ refused db1 (kept, r, there).
          >>=-Ends (λ o db'. (db' ≡ db1) × (o ≡ some r)) H S (Kept db)
            (reread door 3 true refused job.task_id) (or_no_commitment door true) db1
            (rw e (
              reread-Ends 3 true refused t db1 r S (Kept db) there
                (kept, (500, "commit_failed", refl)) kept))
            (λ o db2 (same, is_r). rw (is_r, same) (kept, (t, e, r, there))))

  pub first_row-Ends :
      (job : Job) (db : Db)
      → Ends
          (λ row db'. Kept db db' × HasRow job.task_id db')
          (λ r db'. Kept db db' × IsFailure true r)
          (Kept db)
          (first_row door job db)
  unfolding first_row
  first_row-Ends job db =
      let S : Response → Db → Type 0 = λ r db'. Kept db db' × IsFailure true r in
      >>=-Ends (Looked job.task_id db) (λ row db'. Kept db db' × HasRow job.task_id db') S (Kept db)
        (get_row door 1 job.task_id) (row_or_seal door job) db
        (get_row-Ends 1 job.task_id db S (Kept db) (λ t r h. h))
        (λ o db' (same, t, e, found). rw same (row_or_seal-Ends job db t e o found))

  row_or_seal_again-Ends :
      (job : Job) (db : Db) (r : Commitment) (S : Response → Db → Type 0) (F : Db → Type 0)
      → (t : String) × (job.task_id ≡ str t) × (find t db.commitments ≡ some r)
      → Ends (Sealed job db) S F (row_or_seal_again door job (some r) db)
  unfolding row_or_seal_again Ends
  row_or_seal_again-Ends job db r S F h = (refl, refl, h.0, h.1, h.2)

  -- After the first lookup the second one always finds the row, and so it never answers early.
  pub second_row-Ends :
      (job : Job) (db : Db) (S : Response → Db → Type 0) (F : Db → Type 0)
      → HasRow job.task_id db
      → F db
      → Ends (Sealed job db) S F (second_row door job db)
  unfolding second_row
  second_row-Ends job db S F (t, e, r, there) f =
      >>=-Ends (Looked job.task_id db) (Sealed job db) S F (get_row door 4 job.task_id)
        (row_or_seal_again door job) db (get_row-Ends 4 job.task_id db S F f)
        (λ o db' (same, t', e', found).
          let is_r : o ≡ some r = cc in
          rw (same, is_r) (row_or_seal_again-Ends job db r S F (t, e, there)))
