-- ===== src/Server/Arguments.antt =====
-- What the hook `_precheck` of asp/server.py reads of a call's arguments, and when it objects.
use merita.Prelude.{
  String, Bool, true, false, ◌≡◌, ◌≢◌, refl, ◌⊎◌, inl, inr, some, ◌==◌, Bool-cases, Option-cases,
}
use merita.Prelude.Attempt.{Attempt, returned}
use merita.Json.{Json, null, bool, int, float, str, arr, obj, Fields, end, get, truthy}
use merita.Store
use merita.Store.{Commitment, ok, find}
use merita.Server.{Site, Host, precheck, check_task, args_of, no_test}

-- The hook cannot read such arguments: they are no object and not empty, or name as their task what is no
-- text and not empty.
abbrev pub IsUnreadable : Json → Type 0
IsUnreadable args =
    ((truthy args ≡ true) × ((d : Fields) → args ≢ obj d))
    ⊎ ((d : Fields) × (args ≡ obj d)
        × (truthy (get "task_id" d) ≡ true)
        × ((task : String) → get "task_id" d ≢ str task))

pub text-cases : (j : Json) → ((t : String) × (j ≡ str t)) ⊎ ((t : String) → j ≢ str t)
text-cases (str t) = inl (t, refl)
text-cases null = inr (λ t e. cc e)
text-cases (bool b) = inr (λ t e. cc e)
text-cases (int z) = inr (λ t e. cc e)
text-cases (float x) = inr (λ t e. cc e)
text-cases (arr xs) = inr (λ t e. cc e)
text-cases (obj d) = inr (λ t e. cc e)

pub object-cases : (j : Json) → ((d : Fields) × (j ≡ obj d)) ⊎ ((d : Fields) → j ≢ obj d)
object-cases (obj d) = inl (d, refl)
object-cases null = inr (λ t e. cc e)
object-cases (bool b) = inr (λ t e. cc e)
object-cases (int z) = inr (λ t e. cc e)
object-cases (float x) = inr (λ t e. cc e)
object-cases (arr xs) = inr (λ t e. cc e)
object-cases (str t) = inr (λ t e. cc e)

module _ (h : Host) (site : Site) where
  abbrev required : Attempt (Bool × String)
  required = returned (false, "task_id is required")

  -- a task that is empty, and no text
  pub check_task-empty :
      (j : Json) → truthy j ≡ false → ((t : String) → j ≢ str t) → check_task h site j ≡ required
  unfolding check_task
  check_task-empty (str t) falsy other = absurd (other t refl)
  check_task-empty null falsy other = rw falsy refl
  check_task-empty (bool b) falsy other = rw falsy refl
  check_task-empty (int z) falsy other = rw falsy refl
  check_task-empty (float x) falsy other = rw falsy refl
  check_task-empty (arr xs) falsy other = rw falsy refl
  check_task-empty (obj d) falsy other = rw falsy refl

  args_of-empty :
      (j : Json) → truthy j ≡ false → ((d : Fields) → j ≢ obj d) → args_of h j ≡ some end
  args_of-empty (obj d) falsy other = absurd (other d refl)
  args_of-empty null falsy other = rw falsy refl
  args_of-empty (bool b) falsy other = rw falsy refl
  args_of-empty (int z) falsy other = rw falsy refl
  args_of-empty (float x) falsy other = rw falsy refl
  args_of-empty (arr xs) falsy other = rw falsy refl
  args_of-empty (str t) falsy other = rw falsy refl

  pub precheck-empty :
      (j : Json)
      → truthy j ≡ false
      → ((d : Fields) → j ≢ obj d)
      → precheck h site "verify_deliverable" j ≡ required
  unfolding precheck check_task get truthy
  precheck-empty j falsy other = rw (args_of-empty j falsy other) refl

module _ (h : Host) where
  -- The hook raises no objection to a task with a row only.
  pub check_task-found :
      (site : Site) (task : String)
      → h.up 0 ≡ true
      → ((reason : String) → check_task h site (str task) ≢ returned (false, reason))
      → (row : Commitment) × (find task site.ledger.commitments ≡ some row)
  unfolding check_task Store.get
  check_task-found site task up passes = elim (Bool-cases (task == "")) [
    | inl e ↦ absurd (passes "task_id is required" (rw e refl))
    | inr e ↦ elim (Option-cases (find task site.ledger.commitments)) [
      | inl none_such ↦ absurd (passes (no_test h (str task)) (rw (e, up, none_such) refl))
      | inr found ↦ found
    ]
  ]

  pub precheck_task :
      (site : Site) (args : Fields)
      → precheck h site "verify_deliverable" (obj args) ≡ check_task h site (get "task_id" args)
  unfolding precheck
  precheck_task site args = refl
