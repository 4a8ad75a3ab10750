-- ===== src/Store/History.antt =====
-- Any sequence of calls of the methods of `CommitStore` (asp/store.py), with database failures.
use merita.Prelude.{
  ℕ, String, Bool, true, false, ◌≡◌, refl, inl, inr, none, some, List, [], ◌∷◌, ◌++◌, arith, eq_iff,
  Option-cases,
}
use merita.Prelude.Float.{Float}
use merita.Commitment.{commitment, verify_reveal}
use merita.Commitment.Binding.{verify_reveal_iff}
use merita.Store.{Commitment, LoggedVerdict, Db, ok, find, new_row, commit, record_verdict}
use merita.Store.Commits.{find-append, commit-fresh, commit-existing, commit_keeps, commit_ok}

-- The calls that write; `get`, `feed`, `stats` and `health` only read.
pub data Call : Type 0 where
  commit_call : Bool → String → String → String → String → Call
  log_call : Bool → LoggedVerdict → Call

module _ (sha256 : List ℕ → String) (real : Float → Float) where
  unfoldable pub apply_call : Call → Db → Db
  apply_call (commit_call up nonce task_id source spec) db =
      (commit sha256 up nonce task_id source spec db).1
  apply_call (log_call up v) db = record_verdict real up v db

  unfoldable pub run_calls : List Call → Db → Db
  run_calls [] db = db
  run_calls (c ∷ calls) db = run_calls calls (apply_call c db)

  pub record_verdict_keeps :
      (up : Bool) (v : LoggedVerdict) (db : Db)
      → (record_verdict real up v db).commitments ≡ db.commitments
  unfolding record_verdict
  record_verdict_keeps up v db = ground arith

  -- What a task is committed to never changes: after any later calls, by anyone, the same row is
  -- found, with the same test, nonce and hash.
  committed_forever :
      (calls : List Call) (db : Db) (t : String) (r : Commitment)
      → find t db.commitments ≡ some r
      → find t (run_calls calls db).commitments ≡ some r
  unfolding run_calls apply_call
  committed_forever [] db t r h = h
  committed_forever (commit_call up n k s p ∷ calls) db t r h =
      committed_forever calls (commit sha256 up n k s p db).1 t r
        (commit_keeps sha256 n k s p db up t r h)
  committed_forever (log_call up v ∷ calls) db t r h =
      committed_forever calls (record_verdict real up v db) t r
        (rw (record_verdict_keeps up v db) h)

  -- Every row holds the hash of its own test and nonce, and each key stands once.
  abbrev pub IsSealed : List Commitment → Type 0
  IsSealed [] = Unit
  IsSealed (r ∷ rows) =
      (r.commitment ≡ commitment sha256 r.source r.nonce)
      × (find r.task_id rows ≡ none)
      × IsSealed rows

  append-IsSealed :
      (rows : List Commitment) (r : Commitment)
      → IsSealed rows
      → r.commitment ≡ commitment sha256 r.source r.nonce
      → find r.task_id rows ≡ none
      → IsSealed (rows ++ r ∷ [])
  unfolding find
  append-IsSealed [] r h e f = (e, refl, tt)
  append-IsSealed (x ∷ rows) r h e f = ground (
    arith,
    append-IsSealed rows r h.2 e,
    find-append x.task_id rows r,
    eq_iff x.task_id r.task_id,
    eq_iff r.task_id x.task_id,
  )

  commit-IsSealed :
      (up : Bool) (n t s p : String) (db : Db)
      → IsSealed db.commitments
      → IsSealed (commit sha256 up n t s p db).1.commitments
  unfolding commit
  commit-IsSealed false n t s p db h = h
  commit-IsSealed true n t s p db h = elim (Option-cases (find t db.commitments)) [
    | inl fresh ↦
        rw (commit-fresh sha256 n t s p db fresh)
          (unfold new_row in append-IsSealed db.commitments (new_row sha256 n t s p) h refl fresh)
    | inr (old, e) ↦ rw (commit-existing sha256 n t s p db e) h
  ]

  -- The ledger's invariant holds after any calls, if it held before.
  run_calls-IsSealed :
      (calls : List Call) (db : Db)
      → IsSealed db.commitments
      → IsSealed (run_calls calls db).commitments
  unfolding run_calls apply_call
  run_calls-IsSealed [] db h = h
  run_calls-IsSealed (commit_call up n t s p ∷ calls) db h =
      run_calls-IsSealed calls (commit sha256 up n t s p db).1 (commit-IsSealed up n t s p db h)
  run_calls-IsSealed (log_call up v ∷ calls) db h =
      run_calls-IsSealed calls (record_verdict real up v db) (rw (record_verdict_keeps up v db) h)

  -- In a sealed ledger every row that is found opens its own commitment.
  pub find-reveals :
      (rows : List Commitment) (t : String) (r : Commitment)
      → IsSealed rows
      → find t rows ≡ some r
      → verify_reveal sha256 r.source r.nonce r.commitment ≡ true
  unfolding find
  find-reveals [] t r h e = cc
  find-reveals (x ∷ rows) t r h e =
      ground
        (arith, find-reveals rows t r h.2, verify_reveal_iff sha256 r.source r.nonce r.commitment)

  -- If a commit returned a hash, then after any further calls the task still has a row with that
  -- source and that hash, and its reveal is accepted.
  pub commit_then_reveals :
      (up : Bool) (nonce task_id source spec c : String) (db : Db) (calls : List Call)
      → IsSealed db.commitments
      → (commit sha256 up nonce task_id source spec db).0 ≡ ok c
      → let db' = run_calls calls (commit sha256 up nonce task_id source spec db).1 in
        (r : Commitment) × (find task_id db'.commitments ≡ some r)
        × (r.source ≡ source)
        × (r.commitment ≡ c)
        × (verify_reveal sha256 source r.nonce c ≡ true)
  commit_then_reveals up n t s p c db calls h e =
      let db1 = (commit sha256 up n t s p db).1 in
      let (r, found, src, hash) = commit_ok sha256 n t s p db up c e in
      let kept = committed_forever calls db1 t r found in
      let sealed = run_calls-IsSealed calls db1 (commit-IsSealed up n t s p db h) in
      let opens = find-reveals (run_calls calls db1).commitments t r sealed kept in
      (r, kept, src, hash, rw (← src, ← hash) opens)
