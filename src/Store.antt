-- ===== src/Store.antt =====
-- asp/store.py: the two tables and the methods of `CommitStore`. A method of the database may fail
-- to get a connection, which is its first argument; a failed transaction writes nothing. The ledger
-- is the list of its rows, the log is in the order of `id`.
pub mod Commits
pub mod History
pub mod Log
pub mod Race
use merita.Prelude.{
  ℕ, zero, suc, String, Bool, true, false, ◌&&◌, Option, none, some, List, [], ◌∷◌, ◌++◌, reverse,
  ◌==◌, if◌then◌else◌, length, take, count_if, is_some, concat, take_text, min, max,
}
use merita.Prelude.Int.{ℤ, pos, negsuc}
use merita.Prelude.Float.{Float}
use merita.Commitment.{commitment}

-- a row of `commitments`, and the dataclass that `get` returns
pub record Commitment : Type 0 where
  pub task_id : String
  pub source : String
  pub nonce : String
  pub commitment : String
  pub spec : String

-- a row of `verdicts`, without its serial number
pub record LoggedVerdict : Type 0 where
  pub task_id : String
  pub passed : Bool
  pub confidence : Float
  pub reason : String
  pub commitment : String
  pub tx_hash : Option String
  pub amount : Option String
  pub surface : String
  pub created_at : ℕ

pub record Db : Type 0 where
  pub commitments : List Commitment
  pub verdicts : List LoggedVerdict

-- what `_migrate` leaves on a fresh database
abbrev pub empty : Db
empty = record { commitments = []; verdicts = [] }

pub data Result {ℓ} (A : Type ℓ) : Type ℓ where
  ok : A → Result A
  value_error : String → Result A
  db_error : Result A

-- SELECT … WHERE task_id = %s
unfoldable pub find : String → List Commitment → Option Commitment
find t [] = none
find t (r ∷ rows) = if r.task_id == t then some r else find t rows

-- INSERT … ON CONFLICT (task_id) DO NOTHING RETURNING commitment
unfoldable pub insert : Commitment → Db → Db × Option String
insert r db =
    if is_some (find r.task_id db.commitments)
    then (db, none)
    else (record db { commitments = db.commitments ++ r ∷ [] }, some r.commitment)

abbrev pub refused : String → String
refused task_id = concat (
    "task '" ∷ task_id
    ∷ "' already has a committed acceptance test, and it is not this one. A commitment cannot be replaced — that is the entire point of committing."
    ∷ [])

-- after the SELECT: the same test returns the stored hash, another one raises
unfoldable pub answer_existing : String → String → Option Commitment → Result String
answer_existing task_id source none = value_error (refused task_id)
answer_existing task_id source (some r) =
    if r.source == source then ok r.commitment else value_error (refused task_id)

module _ (sha256 : List ℕ → String) where
  -- the row that `commit` offers; the nonce is what `secrets.token_hex(16)` gave
  unfoldable pub new_row : String → String → String → String → Commitment
  new_row nonce task_id source spec = record {
    task_id = task_id;
    source = source;
    nonce = nonce;
    commitment = commitment sha256 source nonce;
    spec = spec;
  }

  unfoldable pub commit : Bool → String → String → String → String → Db → Result String × Db
  unfolding insert answer_existing new_row
  commit up nonce task_id source spec db =
      if up
      then (let (db', inserted) = insert (new_row nonce task_id source spec) db in
          let existing = find task_id db'.commitments in
          elim inserted [
            | some c ↦ (ok c, db')
            | none ↦ (answer_existing task_id source existing, db')
          ])
      else (db_error, db)

unfoldable pub get : Bool → String → Db → Result (Option Commitment)
get up task_id db = if up then ok (find task_id db.commitments) else db_error

-- `real` is the rounding of the REAL column
module _ (real : Float → Float) where
  -- every exception is caught and logged, so the method only returns
  unfoldable pub record_verdict : Bool → LoggedVerdict → Db → Db
  unfolding take_text
  record_verdict up v db =
      if up
      then (let row = record v {
        reason = take_text 300 v.reason;
        confidence = real v.confidence;
      } in
          record db { verdicts = db.verdicts ++ row ∷ [] })
      else db

abbrev pub clamp_limit : ℤ → ℕ
clamp_limit (pos n) = max 1 (min n 200)
clamp_limit (negsuc n) = 1

unfoldable pub feed : Bool → ℤ → Db → List LoggedVerdict
feed up limit db = if up then take (clamp_limit limit) (reverse db.verdicts) else []

pub record Stats : Type 0 where
  pub total : ℕ
  pub passed : ℕ
  pub settled : ℕ

unfoldable pub stats : Bool → Db → Stats
stats up db =
    if up
    then record {
      total = length db.verdicts;
      passed = count_if (λ v. v.passed) db.verdicts;
      settled = count_if (λ v. is_some v.tx_hash) db.verdicts;
    }
    else record { total = 0; passed = 0; settled = 0 }
