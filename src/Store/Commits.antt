-- ===== src/Store/Commits.antt =====
-- `commit` and `get` of asp/store.py: a ledger in which what is committed stays.
use merita.Prelude.{
  ℕ, String, Bool, true, false, ◌≡◌, refl, ◌⊎◌, inl, inr, Option, none, some, List, [], ◌∷◌, ◌++◌,
  arith, ◌==◌, eq_iff, eq_refl, if◌then◌else◌, Option-cases, is_some,
}
use merita.Commitment.{commitment}
use merita.Store.{
  Commitment, Db, Result, ok, value_error, db_error, find, answer_existing, refused, new_row,
  commit,
}

-- Behind the rows that are there, a new row is found under its own key only.
pub find-append :
    (t : String) (rows : List Commitment) (r : Commitment)
    → find t (rows ++ r ∷ [])
      ≡ (if is_some (find t rows) then find t rows else if r.task_id == t then some r else none)
unfolding find
find-append t [] r = refl
find-append t (x ∷ rows) r = ground (arith, find-append t rows r)

-- A found row carries the key that was asked for.
pub find-key :
    (t : String) (rows : List Commitment) (r : Commitment) → find t rows ≡ some r → r.task_id ≡ t
unfolding find
find-key t [] r h = cc
find-key t (x ∷ rows) r h = ground (arith, find-key t rows r, eq_iff x.task_id t)

-- The abstract ledger: at most one commitment for each task, and no other structure.
abbrev pub Ledger : Type 0
Ledger = String → Option Commitment

abbrev pub ledger : Db → Ledger
ledger db t = find t db.commitments

-- What `commit` promises, on the abstract ledger: the hash of the first test stays, the same test
-- again is answered by it, and any other test is refused.
abbrev pub promised : Commitment → Option Commitment → Result String
promised r none = ok r.commitment
promised r (some old) =
    if old.source == r.source then ok old.commitment else value_error (refused r.task_id)

abbrev pub first_wins : Commitment → Ledger → Ledger
first_wins r l t = if is_some (l t) then l t else if r.task_id == t then some r else none

module _ (sha256 : List ℕ → String) (nonce task_id source spec : String) (db : Db) where
  -- A first commit appends its row.
  pub commit-fresh :
      find task_id db.commitments ≡ none
      → commit sha256 true nonce task_id source spec db ≡ (
        ok (commitment sha256 source nonce),
        record db { commitments = db.commitments ++ new_row sha256 nonce task_id source spec ∷ [] },
      )
  unfolding commit
  commit-fresh h = ground arith

  -- A later commit of the same task writes nothing.
  pub commit-existing :
      {old : Commitment}
      → find task_id db.commitments ≡ some old
      → commit sha256 true nonce task_id source spec db
        ≡ (answer_existing task_id source (some old), db)
  unfolding commit
  commit-existing h = ground arith

  -- On a reachable database `commit` answers as the abstract ledger promises, and the ledger that
  -- it leaves is the old one, with the new row where the task had none.
  pub commit_refines :
      ((commit sha256 true nonce task_id source spec db).0
        ≡ promised (new_row sha256 nonce task_id source spec) (ledger db task_id))
      × ((t : String)
          → ledger (commit sha256 true nonce task_id source spec db).1 t
            ≡ first_wins (new_row sha256 nonce task_id source spec) (ledger db) t)
  unfolding new_row answer_existing
  commit_refines = elim (Option-cases (find task_id db.commitments)) [
    | inl fresh ↦ (
      rw (commit-fresh fresh, fresh),
      λ t.
          rw (commit-fresh fresh)
            (find-append t db.commitments (new_row sha256 nonce task_id source spec)),
    )
    | inr (old, e) ↦ (
      rw (commit-existing e, e),
      λ t. rw (commit-existing e) (ground (arith, e, eq_iff task_id t)),
    )
  ]

  -- Whatever `commit` does, also when the database fails, a row that was found is still found.
  pub commit_keeps :
      (up : Bool) (t : String) (r : Commitment)
      → find t db.commitments ≡ some r
      → find t (commit sha256 up nonce task_id source spec db).1.commitments ≡ some r
  unfolding commit
  commit_keeps false t r h = h
  commit_keeps true t r h = rw (commit_refines.1 t) (rw h)

  -- After a commit that returned a hash, the task has a row with this source and this hash.
  pub commit_ok :
      (up : Bool) (c : String)
      → (commit sha256 up nonce task_id source spec db).0 ≡ ok c
      → (r : Commitment) × (find task_id
            (commit sha256 up nonce task_id source spec db).1.commitments
          ≡ some r)
        × (r.source ≡ source)
        × (r.commitment ≡ c)
  unfolding commit
  commit_ok false c h = cc
  commit_ok true c h = elim (Option-cases (find task_id db.commitments)) [
    | inl fresh ↦ (
      new_row sha256 nonce task_id source spec,
      rw (commit-fresh fresh) (
          rw (find-append task_id db.commitments (new_row sha256 nonce task_id source spec))
            (ground (arith, fresh, eq_refl task_id))),
      refl,
      ground (arith, commit-fresh fresh),
    )
    | inr (old, e) ↦ (
      old,
      rw (commit-existing e) e,
      ground (arith, commit-existing e, eq_iff old.source source),
      ground (arith, commit-existing e),
    )
  ]

  -- A commit fails in the database, or leaves a row for its task.
  pub commit_fails_or_records :
      (up : Bool)
      → (commit sha256 up nonce task_id source spec db ≡ (db_error, db))
        ⊎ ((r : Commitment) × (find task_id
                (commit sha256 up nonce task_id source spec db).1.commitments
              ≡ some r))
  unfolding commit
  commit_fails_or_records false = inl refl
  commit_fails_or_records true = elim (Option-cases (find task_id db.commitments)) [
    | inl fresh ↦
        (let (r, found, source_kept, hash) =
            commit_ok true (commitment sha256 source nonce) (rw (commit-fresh fresh) refl) in
          inr (r, found))
    | inr (old, e) ↦ inr (old, commit_keeps true task_id old e)
  ]
