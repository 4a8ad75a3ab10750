-- ===== src/Tests/ServerRuns.antt =====
-- Runs of the server.
use text.Mathlib.Text.{starts_with}
use text.Mathlib.TextPositions.{starts_with-append}
use merita.Prelude.{
  arith, sym, concat, ◌==◌, inl, inr, Bool-cases, eq_iff, ne_of_test, String, true, false, ◌≡◌, ◌≢◌,
  ◌⊎◌, refl, Option, none, some, List, [], ◌∷◌,
}
use merita.Prelude.Int.{pos}
use merita.Prelude.Float.{zero_point, one_point, fin}
use merita.Prelude.Attempt.{returned}
use merita.Json.{Json, bool, str, obj, Fields, end, field, get, truthy}
use merita.Models.{Verdict, deterministic}
use merita.Store
use merita.Store.{Commitment, Db, find}
use merita.Paywall.{
  Scope, Payment, Tariff, forward, tool_name, tool_args, first_value, is_probe_payment_name,
  is_payment_name, looks_like_x402_probe, accepts_sse, charge, dispatch, honour, prechecked, decide,
  is_http_door, is_mcp_path, payment_header,
}
use merita.Paywall
use merita.Paywall.Gate.{IsPaidCall}
use merita.Integrity.{new_graph}
use merita.Server.{
  Site, Host, Judgement, verdict, screened, Ask, commit_tool, worker_verify, Request, namespaced,
  step, serve, precheck, paid_tools, gate, verify_deliverable, assess_integrity, internal_verify,
  public_commit, public_verify, check_task,
}
use merita.Server.Ledger.{IsRuled}
use merita.Server.Arguments.{IsUnreadable}
use merita.Server.Requests.{asks_for, verdict-IsRuled, serve_keeps}
use merita.Server.Namespace.{IsReal, demo_is_confined}
use merita.Server.Gates.{ruled, IsWorker, paid_call_gets_a_verdict, internal_verify-IsWorker}
use merita.Server.Screen.{spotless, screen_never_warns}
use merita.Tests.Fixtures.{rt, fac}

abbrev pub passed : Verdict
passed = record {
  passed = true;
  tier_used = deterministic;
  confidence = one_point;
  reason = "passed";
  reveal_valid = true;
}

abbrev pub host : Host
host = record {
  rt = rt;
  fac = fac;
  referee = λ source nonce commitment deliverable. returned passed;
  slow = λ source nonce commitment deliverable. false;
  words = record { is_digit = λ c. false; lower = λ c. c ∷ []; hash_set = λ shingles. "7" };
  arithmetic = record {
    ratio = λ a b. one_point;
    add = λ a b. a;
    sub = λ a b. a;
    mul = λ a b. a;
    div = λ a b. a;
    log2 = λ a. a;
  };
  round3 = λ x. x;
  worker_token = "secret";
  price_verify = zero_point;
  now = 5;
  nonce = λ n. "n";
  up = λ n. true;
  real = λ x. x;
  sql_text = λ j. some none;
}

abbrev pub sealed_row : Commitment
sealed_row = record { task_id = "t"; source = "abc"; nonce = "n"; commitment = "a5"; spec = "" }

abbrev pub site : Site
site = record {
  ledger = record { commitments = sealed_row ∷ []; verdicts = [] };
  graph = new_graph;
}

abbrev args : Fields
args = field "task_id" (str "t") end

abbrev rpc : Option Json
rpc = some (
    obj (
      field "jsonrpc" (str "2.0") (
        field "method" (str "tools/call") (
          field "params"
            (obj (field "name" (str "verify_deliverable") (field "arguments" (obj args) end)))
            end))))

-- an MCP client that pays
abbrev paying : Scope
paying = record {
  kind = "http";
  method = "POST";
  path = "/mcp";
  headers = ("x-payment", "paid") ∷ ("accept", "text/event-stream") ∷ [];
}

abbrev payment : Payment
payment = record { reqs = field "amount" (str "10000") end; x_payment = "paid"; receipt = some end }

-- what is asked in between: another test for the same task
abbrev meanwhile : List (Host × Ask)
meanwhile = (host, commit_tool "t" "xyz" "spec") ∷ []

abbrev pub tariff : Tariff
tariff = record {
  price = fin (pos 5764607523034235) 58;
  description = "Merita — verify a deliverable against a committed test";
}

paying-IsPaidCall :
    IsPaidCall fac paid_tools (some (precheck host site)) paying rpc "verify_deliverable" tariff
unfolding is_http_door looks_like_x402_probe is_mcp_path first_value is_probe_payment_name
    accepts_sse tool_name Paywall.find
paying-IsPaidCall = record {
  kind = refl;
  post = refl;
  door = refl;
  probe = refl;
  plain = refl;
  named = refl;
  listed = refl;
  ready = refl;
}

paid_call_gets_a_verdict_example :
    IsUnreadable (obj args)
    ⊎ ((named : Fields) × (task : String) × (obj args ≡ obj named)
        × (get "task_id" named ≡ str task)
        × (row : Commitment) × (find task site.ledger.commitments ≡ some row)
        × ((verify_deliverable host task end (some payment) (serve meanwhile site)).0
            ≡ ruled host task
                (some payment)
                row
                (host.referee row.source row.nonce row.commitment (obj end))))
unfolding tool_args gate decide is_http_door looks_like_x402_probe is_mcp_path first_value
    is_probe_payment_name accepts_sse dispatch tool_name charge prechecked precheck check_task
    Store.get find honour payment_header is_payment_name get truthy
paid_call_gets_a_verdict_example =
    paid_call_gets_a_verdict host site paying rpc tariff "/mcp" (some payment) meanwhile host end
      (some payment) paying-IsPaidCall refl refl refl

serve_keeps_example : find "t" (serve meanwhile site).ledger.commitments ≡ some sealed_row
unfolding find
serve_keeps_example = serve_keeps meanwhile site "t" sealed_row refl

abbrev from_worker : Request
from_worker = record {
  method = "POST";
  worker_token = "secret";
  body = some (obj (field "task_id" (str "t") (field "deliverable" (bool true) end)));
}

abbrev judgement : Judgement
judgement = record {
  key = "t";
  passed = true;
  confidence = one_point;
  reason = "passed";
  reveal_valid = true;
  commitment = "a5";
  payment_receipt = none;
}

verdict-IsRuled_example :
    (key : String) × (deliverable : Json) × (asks_for host (worker_verify from_worker)
      ≡ some (key, deliverable))
    × IsRuled host key deliverable judgement (step host (worker_verify from_worker) site).1.ledger
unfolding step internal_verify Store.get find get truthy
verdict-IsRuled_example = verdict-IsRuled host (worker_verify from_worker) site judgement refl

internal_verify-IsWorker_example :
    IsWorker host from_worker
    ⊎ (((internal_verify host from_worker site).1 ≡ site)
        × ((j : Judgement) → (internal_verify host from_worker site).0 ≢ verdict j))
internal_verify-IsWorker_example = internal_verify-IsWorker host from_worker site

-- a demo request for a task whose name a real task has
abbrev from_browser : Request
from_browser = record {
  method = "POST";
  worker_token = "";
  body = some (obj (field "task_id" (str "t") (field "acceptance_test" (str "xyz") end)));
}

abbrev elsewhere : Site
elsewhere = record { ledger = record { commitments = []; verdicts = [] }; graph = new_graph }

t-IsReal : IsReal "t"
t-IsReal s e =
    let starts : starts_with (namespaced s) "public:" ≡ true =
      starts_with-append "public:" (concat (s ∷ [])) in
    absurd (ground (arith, rw e at starts))

t-no_demo : (s : String) → ("t" == namespaced s) ≡ false
t-no_demo s = elim (Bool-cases ("t" == namespaced s)) [
  | inl e ↦ absurd (t-IsReal s (sym ((eq_iff "t" (namespaced s)).0 e)))
  | inr e ↦ e
]

demo_is_confined_example :
    (find "t" (public_commit host from_browser site).1.ledger.commitments
      ≡ find "t" site.ledger.commitments)
    × (find "t" (public_verify host from_browser site).1.ledger.commitments
        ≡ find "t" site.ledger.commitments)
    × ((public_commit host from_browser site).0 ≡ (public_commit host from_browser elsewhere).0)
    × ((public_verify host from_browser site).0 ≡ (public_verify host from_browser elsewhere).0)
unfolding find
demo_is_confined_example =
    demo_is_confined host from_browser site elsewhere "t" t-IsReal (λ s. rw (t-no_demo s) refl)

some_inj : {s t : String} → some s ≡ some t → s ≡ t
some_inj e = cc

screen_never_warns_example :
    (assess_integrity host "0xb" "0xa"
      (serve meanwhile (record { ledger = site.ledger; graph = new_graph }))).0
    ≡ screened (spotless host)
screen_never_warns_example =
    screen_never_warns meanwhile site.ledger host "0xb" "0xa" (ne_of_test "0xa" "0xb" refl)
      ((λ e. ne_of_test "t" "0xa" refl (some_inj e)), tt)
