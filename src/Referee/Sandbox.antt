-- ===== src/Referee/Sandbox.antt =====
-- brain/merita/referee/tier1.py: `_HARNESS`, the program that the child process runs, and
-- `_run_once`, which reads what the child did.
use merita.Prelude.{
  ℕ, String, Bool, true, false, not, ◌&&◌, Option, none, some, eqb, if◌then◌else◌, concat, [], ◌∷◌,
  take_text,
}
use merita.Prelude.Int.{ℤ, pos, eqb_ℤ}
use merita.Runtime.{Runtime}
use merita.Json.{Json, bool, int, str, obj, Fields, end, field, get, truthy}

-- What the parent sees of the child: it ran past the wall clock and was killed (and reaped, or not,
-- within five seconds), or it exited with a code, its standard error, and the value of the last line
-- of its standard output, `none` where that is no JSON.
pub data Proc : Type 0 where
  hung : Bool → Proc
  exited : ℤ → String → Option Json → Proc

-- The unprivileged uid, SANDBOX_UID of the environment or 65534, and what the operating system does
-- with the child's privilege calls.
pub record Host : Type 0 where
  pub sandbox_uid : ℕ
  pub euid_before : ℕ
  pub setgid_ok : Bool
  pub setuid_ok : Bool
  pub regains_root : Bool

-- What the poster's source does when it is run on the deliverable. `takes_over` is a test that ends
-- the process itself, is killed by a limit, or writes to stdout.
pub data Behaviour : Type 0 where
  load_error raises : String → Behaviour
  no_check memory_error : Behaviour
  returns : Bool → Behaviour
  takes_over : Proc → Behaviour

-- the effective uid after `setgid` and `setuid`, whose failures are swallowed
unfoldable pub euid_after : Host → ℕ
euid_after h = if h.setgid_ok && h.setuid_ok then h.sandbox_uid else h.euid_before

-- `_ok`: the drop is proved to have happened
unfoldable pub isolated : Host → Bool
unfolding euid_after
isolated h = eqb (euid_after h) h.sandbox_uid && not (eqb h.euid_before 0 && h.regains_root)

abbrev reply : Bool → Fields → Option Json
reply ok rest = some (obj (field "ok" (bool ok) rest))

-- the child's output on what the source does
unfoldable pub judge : Behaviour → Proc
judge (load_error e) =
    exited (pos 0) ""
      (reply false (field "err" (str (concat ("test source did not load: " ∷ e ∷ []))) end))
judge no_check = exited (pos 0) "" (reply false (field "err" (str "no callable check(output)") end))
judge (returns b) = exited (pos 0) "" (reply true (field "passed" (bool b) end))
judge memory_error =
    exited (pos 0) "" (reply false (field "err" (str "test exhausted memory limit") end))
judge (raises e) =
    exited (pos 0) "" (reply true (field "passed" (bool false) (field "err" (str e) end)))
judge (takes_over p) = p

-- The child: untrusted code runs only behind the check of the drop. The second part says whether
-- the poster's source was run.
unfoldable pub harness : Host → Behaviour → Proc × Bool
unfolding isolated judge
harness h b = if isolated h then (judge b, true) else (
  exited (pos 3) ""
      (some (obj (field "fatal" (str "SANDBOX_NOT_ISOLATED: privilege drop unverifiable") end))),
  false,
)

pub record Run : Type 0 where
  pub ok : Bool
  pub passed : Bool
  pub err : Json

-- A Python call: it returns, or raises `SandboxUnavailable`, or raises an exception
-- of another type.
pub data Outcome {ℓ} (A : Type ℓ) : Type ℓ where
  value : A → Outcome A
  sandbox_unavailable : Outcome A
  exception : String → Outcome A

abbrev failed_run : String → Outcome Run
failed_run e = value (record { ok = false; passed = false; err = str e })

-- the end of `_run_once`: only an object has `.get`
unfoldable pub read_result : Option Json → Outcome Run
read_result none = failed_run "unparseable sandbox output"
read_result (some (obj res)) =
    value (record {
      ok = truthy (get "ok" res);
      passed = truthy (get "passed" res);
      err = get "err" res;
    })
read_result (some other) = exception "AttributeError"

module _ (rt : Runtime) where
  unfoldable pub run_once : Proc → Outcome Run
  unfolding read_result take_text
  run_once (hung false) = exception "TimeoutExpired"
  run_once (hung true) = failed_run "acceptance test exceeded 10s wall clock"
  run_once (exited code stderr line) =
      if eqb_ℤ code (pos 3)
      then sandbox_unavailable
      else if not (eqb_ℤ code (pos 0))
      then failed_run
          (concat ("sandbox exit " ∷ rt.str_of (int code) ∷ ": " ∷ take_text 200 stderr ∷ []))
      else read_result line
