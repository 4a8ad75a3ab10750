-- ===== src/Tests/LedgerRuns.antt =====
-- Runs of the commitment ledger and of the verdict log.
use merita.Prelude.{
  ℕ, String, true, ◌≡◌, refl, none, some, List, [], ◌∷◌, eqb, if◌then◌else◌, encode,
}
use merita.Prelude.Float.{one_point}
use merita.Commitment.{preimage, commitment, verify_reveal}
use merita.Commitment.Binding.{preimage-inj}
use merita.Store.{Commitment, LoggedVerdict, Db, find, new_row, commit, empty, record_verdict}
use merita.Store.Commits.{ledger, promised, first_wins, commit_refines}
use merita.Store.History.{Call, commit_call, log_call, run_calls, IsSealed, commit_then_reveals}
use merita.Store.Race.{ready, Session, System, step, run_schedule, commits_agree, advance}
use merita.Tests.Fixtures.{digest}

abbrev sealed_row : Commitment
sealed_row = record { task_id = "t"; source = "abc"; nonce = "n"; commitment = "a5"; spec = "" }

abbrev ledger_with_row : Db
ledger_with_row = record { commitments = sealed_row ∷ []; verdicts = [] }

abbrev won : LoggedVerdict
won = record {
  task_id = "t";
  passed = true;
  confidence = one_point;
  reason = "passed";
  commitment = "a5";
  tx_hash = some "0x1";
  amount = none;
  surface = "http";
  created_at = 5;
}

abbrev later_calls : List Call
later_calls =
    commit_call true "m" "t" "xyz" "" ∷ log_call true won ∷ commit_call true "m" "u" "xyz" "" ∷ []

rows-IsSealed : IsSealed digest (λ x. x) ledger_with_row.commitments
unfolding commitment find encode
rows-IsSealed = (refl, refl, tt)

commit_refines_example :
    ((commit digest true "m" "t" "xyz" "" ledger_with_row).0
      ≡ promised (new_row digest "m" "t" "xyz" "") (ledger ledger_with_row "t"))
    × ((t : String)
        → ledger (commit digest true "m" "t" "xyz" "" ledger_with_row).1 t
          ≡ first_wins (new_row digest "m" "t" "xyz" "") (ledger ledger_with_row) t)
commit_refines_example = commit_refines digest "m" "t" "xyz" "" ledger_with_row

commit_then_reveals_example :
    (r : Commitment) × (find "u"
        (run_calls digest
          (λ x. x)
          later_calls
          (commit digest true "k" "u" "abc" "" ledger_with_row).1).commitments
      ≡ some r)
    × (r.source ≡ "abc")
    × (r.commitment ≡ "a5")
    × (verify_reveal digest "abc" r.nonce "a5" ≡ true)
unfolding commit find commitment encode
commit_then_reveals_example =
    commit_then_reveals digest (λ x. x) true "k" "u" "abc" "" "a5" ledger_with_row later_calls
      rows-IsSealed refl

preimage-inj_example : (sealed_row.source ≡ "abc") × (sealed_row.nonce ≡ "n")
unfolding preimage encode
preimage-inj_example = preimage-inj "abc" "abc" "n" "n" ((λ h. cc), tt) ((λ h. cc), tt) refl

abbrev logged : Db
logged = record_verdict (λ x. x) true won ledger_with_row

-- two sessions with the same test, which draw different nonces
abbrev callers : ℕ → Session
callers i = record {
  nonce = if eqb i 0 then "n" else "m";
  task_id = "t";
  source = "abc";
  spec = "";
  phase = ready;
}

abbrev start : System
start = record { db = empty; sessions = callers }

abbrev finished : System
finished = run_schedule digest (1 ∷ 0 ∷ 0 ∷ []) start

commits_agree_example :
    ((finished.sessions 0).source ≡ (finished.sessions 1).source) × (sealed_row.commitment ≡ "a5")
unfolding run_schedule step advance find commitment encode
commits_agree_example =
    commits_agree digest (1 ∷ 0 ∷ 0 ∷ []) start 0 1 "a5" "a5" (λ j. tt) refl refl refl
