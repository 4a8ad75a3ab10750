-- ===== src/Store/Race.antt =====
-- Concurrent commits (asp/store.py, `commit`): each session runs the INSERT and, if it conflicts,
-- the SELECT, and the scheduler puts the statements of the sessions in any order. A statement is
-- atomic, which the primary key gives; a session's own INSERT is visible to the others at once, since
-- a conflicting INSERT waits for the transaction that holds the key.
use merita.Prelude.{
  ℕ, String, true, ◌≡◌, ◌≢◌, refl, sym, inl, inr, none, some, List, [], ◌∷◌, ◌++◌, arith, ◌==◌,
  eq_iff, eq_refl, if◌then◌else◌, Bool-cases, Option-cases, eqb, ◌∙◌, ap,
}
use merita.Store.{
  Commitment, Db, Result, ok, value_error, db_error, find, insert, answer_existing, new_row, commit,
}
use merita.Store.Commits.{find-append}

pub data Phase : Type 0 where
  ready selecting : Phase
  done : Result String → Phase

-- one call of `commit`, with the nonce that it drew
pub record Session : Type 0 where
  pub nonce : String
  pub task_id : String
  pub source : String
  pub spec : String
  pub phase : Phase

pub record System : Type 0 where
  pub db : Db
  pub sessions : ℕ → Session

module _ (sha256 : List ℕ → String) where
  abbrev row_of : Session → Commitment
  row_of s = new_row sha256 s.nonce s.task_id s.source s.spec

  -- what the session does next, by its phase
  unfoldable pub advance : Phase → Session → Db → Session × Db
  unfolding insert answer_existing new_row
  advance ready s db =
      let (db', inserted) = insert (row_of s) db in
      elim inserted [
        | some c ↦ (record s { phase = done (ok c) }, db')
        | none ↦ (record s { phase = selecting }, db')
      ]
  advance selecting s db = (
    record s { phase = done (answer_existing s.task_id s.source (find s.task_id db.commitments)) },
    db,
  )
  advance (done r) s db = (s, db)

  unfoldable pub step : ℕ → System → System
  step i sys =
      let (s, db') = advance (sys.sessions i).phase (sys.sessions i) sys.db in
      record { db = db'; sessions = λ j. if eqb i j then s else sys.sessions j }

  unfoldable pub run_schedule : List ℕ → System → System
  run_schedule [] sys = sys
  run_schedule (i ∷ schedule) sys = run_schedule schedule (step i sys)

  -- What a session may claim about the ledger, by its phase.
  abbrev pub IsHonest : Db → Session → Phase → Type 0
  IsHonest db s ready = Unit
  IsHonest db s selecting = (r : Commitment) × (find s.task_id db.commitments ≡ some r)
  IsHonest db s (done (ok c)) =
      (r : Commitment) × (find s.task_id db.commitments ≡ some r)
      × (r.source ≡ s.source)
      × (r.commitment ≡ c)
  IsHonest db s (done (value_error m)) =
      (r : Commitment) × (find s.task_id db.commitments ≡ some r) × (r.source ≢ s.source)
  IsHonest db s (done db_error) = Unit

  abbrev pub IsConsistent : System → Type 0
  IsConsistent sys = (j : ℕ) → IsHonest sys.db (sys.sessions j) (sys.sessions j).phase

  advance_keeps :
      (p : Phase) (s : Session) (db : Db) (t : String) (r : Commitment)
      → find t db.commitments ≡ some r
      → find t (advance p s db).1.commitments ≡ some r
  unfolding advance
  advance_keeps ready s db t r h = ground (arith, find-append t db.commitments (row_of s))
  advance_keeps selecting s db t r h = h
  advance_keeps (done x) s db t r h = h

  IsHonest-stable :
      (p : Phase) (db db' : Db) (s : Session)
      → ((t : String) (r : Commitment)
          → find t db.commitments ≡ some r
          → find t db'.commitments ≡ some r)
      → IsHonest db s p
      → IsHonest db' s p
  IsHonest-stable ready db db' s keep h = tt
  IsHonest-stable selecting db db' s keep h = (h.0, keep s.task_id h.0 h.1)
  IsHonest-stable (done (ok c)) db db' s keep h = (h.0, keep s.task_id h.0 h.1, h.2, h.3)
  IsHonest-stable (done (value_error m)) db db' s keep h = (h.0, keep s.task_id h.0 h.1, h.2)
  IsHonest-stable (done db_error) db db' s keep h = tt

  insert-fresh :
      (s : Session) (db : Db)
      → find s.task_id db.commitments ≡ none
      → advance ready s db ≡ (
        record s { phase = done (ok (row_of s).commitment) },
        record db { commitments = db.commitments ++ row_of s ∷ [] },
      )
  unfolding advance
  insert-fresh s db h = ground arith

  insert-conflict :
      (s : Session) (db : Db) {r : Commitment}
      → find s.task_id db.commitments ≡ some r
      → advance ready s db ≡ (record s { phase = selecting }, db)
  unfolding advance
  insert-conflict s db h = ground arith

  -- the SELECT answers by the row that it finds
  answer-IsHonest :
      (s : Session) (db : Db) (r : Commitment)
      → find s.task_id db.commitments ≡ some r
      → IsHonest db s (done (answer_existing s.task_id s.source (some r)))
  unfolding answer_existing
  answer-IsHonest s db r e = elim (Bool-cases (r.source == s.source)) [
    | inl same ↦ rw same (r, e, (eq_iff r.source s.source).0 same, refl)
    | inr differ ↦ rw differ (r, e, λ eq. ground (arith, differ, (eq_iff r.source s.source).1 eq))
  ]

  -- the statement of a session leaves that session honest
  advance-IsHonest :
      (p : Phase) (s : Session) (db : Db)
      → IsHonest db s p
      → s.phase ≡ p
      → let (s', db') = advance p s db in IsHonest db' s' s'.phase
  advance-IsHonest ready s db h e = elim (Option-cases (find s.task_id db.commitments)) [
    | inl fresh ↦ rw (insert-fresh s db fresh) (
      row_of s,
      rw (find-append s.task_id db.commitments (row_of s))
          (unfold new_row in ground (arith, fresh, eq_refl s.task_id)),
      unfold new_row in refl,
      refl,
    )
    | inr (old, found) ↦ rw (insert-conflict s db found) (old, found)
  ]
  advance-IsHonest selecting s db (r, found) e =
      unfold advance in rw found (answer-IsHonest s db r found)
  advance-IsHonest (done x) s db h e = unfold advance in rw e h

  -- whoever runs next, every session stays honest
  step-IsConsistent : (i : ℕ) (sys : System) → IsConsistent sys → IsConsistent (step i sys)
  unfolding step
  step-IsConsistent i sys h j = elim (Bool-cases (eqb i j)) [
    | inl same ↦
        rw same (advance-IsHonest (sys.sessions i).phase (sys.sessions i) sys.db (h i) refl)
    | inr other ↦ rw other (
        IsHonest-stable (sys.sessions j).phase sys.db
          (advance (sys.sessions i).phase (sys.sessions i) sys.db).1 (sys.sessions j)
          (advance_keeps (sys.sessions i).phase (sys.sessions i) sys.db) (h j))
  ]

  run_schedule-IsConsistent :
      (schedule : List ℕ) (sys : System)
      → IsConsistent sys
      → IsConsistent (run_schedule schedule sys)
  unfolding run_schedule
  run_schedule-IsConsistent [] sys h = h
  run_schedule-IsConsistent (i ∷ schedule) sys h =
      run_schedule-IsConsistent schedule (step i sys) (step-IsConsistent i sys h)

  agree :
      (db : Db) (s u : Session) (c d : String)
      → s.task_id ≡ u.task_id
      → IsHonest db s (done (ok c))
      → IsHonest db u (done (ok d))
      → (s.source ≡ u.source) × (c ≡ d)
  agree db s u c d e (r, found, src, hash) (r', found', src', hash') =
      let same : some r ≡ some r' = sym found ∙ ap (λ t. find t db.commitments) e ∙ found' in
      (cc, cc)

  -- Whatever the order in which concurrent commits run, two of them that return a hash for one task
  -- have offered the same test, and return the same hash.
  pub commits_agree :
      (schedule : List ℕ) (sys : System) (i j : ℕ) (c d : String)
      → IsConsistent sys
      → let end = run_schedule schedule sys in
        (end.sessions i).task_id ≡ (end.sessions j).task_id
        → (end.sessions i).phase ≡ done (ok c)
        → (end.sessions j).phase ≡ done (ok d)
        → ((end.sessions i).source ≡ (end.sessions j).source) × (c ≡ d)
  commits_agree schedule sys i j c d h same pi pj =
      let end = run_schedule schedule sys in
      let honest = run_schedule-IsConsistent schedule sys h in
      agree end.db (end.sessions i) (end.sessions j) c d same (rw pi at (honest i))
        (rw pj at (honest j))

  -- A commit that no other session interrupts is the method of the class.
  uninterrupted :
      (s : Session) (db : Db)
      → let (s1, db1) = advance ready s db in
        let (s2, db2) = advance s1.phase s1 db1 in
        let (r, db') = commit sha256 true s.nonce s.task_id s.source s.spec db in
        (s2.phase ≡ done r) × (db2 ≡ db')
  unfolding advance commit
  uninterrupted s db = elim (Option-cases (find s.task_id db.commitments)) [
    | inl fresh ↦ (ground (arith, fresh), ground (arith, fresh))
    | inr (old, e) ↦ (ground (arith, e), ground (arith, e))
  ]
