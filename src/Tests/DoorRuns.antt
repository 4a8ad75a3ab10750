-- ===== src/Tests/DoorRuns.antt =====
-- Runs of the plain-HTTP door.
use merita.Prelude.{true, false, refl, none, some, [], ◌∷◌}
use merita.Prelude.Float.{zero_point, one_point}
use merita.Json.{null, bool, str, obj, end, field, truthy}
use merita.Models.{Verdict, deterministic}
use merita.Facilitator.{Settlement, settlement}
use merita.Store.{Commitment, Db, find, get}
use merita.HttpDoor.{Door, judged, VerdictBody, Request, asked, serve, handle, payment_header}
use merita.HttpDoor.Serving.{IsHonest}
use merita.HttpDoor.Answers.{IsForAPaidBuyer, WasPaid, paid_request_is_served, verdict-IsHonest}
use merita.Tests.Fixtures.{rt, fac}

abbrev passed : Verdict
passed = record {
  passed = true;
  tier_used = deterministic;
  confidence = one_point;
  reason = "passed";
  reveal_valid = true;
}

abbrev door : Door
door = record {
  rt = rt;
  fac = fac;
  referee = λ source nonce commitment deliverable. judged passed;
  price = zero_point;
  now = 5;
  nonce = λ n. "n";
  up = λ n. true;
  real = λ x. x;
  sql_text = λ j. some none;
}

-- a paid request with a test in it, for a task that has another test
abbrev request : Request
request = record {
  headers = ("x-payment", "paid") ∷ [];
  body = some (
      obj (
        field "task_id" (str "t")
          (field "acceptance_test" (str "xyz") (field "deliverable" (bool true) end))));
}

abbrev sealed_row : Commitment
sealed_row = record { task_id = "t"; source = "abc"; nonce = "n"; commitment = "a5"; spec = "" }

abbrev db : Db
db = record { commitments = sealed_row ∷ []; verdicts = [] }

abbrev answer : VerdictBody
answer = record {
  task_id = "t";
  passed = true;
  confidence = one_point;
  reason = "passed";
  reveal_valid = true;
  commitment = "a5";
  settle_escrow = true;
  precommitted = true;
  charged = true;
  tx_hash = null;
  payment_receipt = none;
  demonstration = false;
}

paid_request_is_served_example : IsForAPaidBuyer (handle door request db).0
unfolding payment_header
paid_request_is_served_example =
    paid_request_is_served door request db {x = "paid"}
      {settled = settlement true "settled" (some end)} refl refl refl

verdict-IsHonest_example :
    ((settled : Settlement) × WasPaid door request settled)
    × IsHonest door answer (handle door request db).1
unfolding handle payment_header serve truthy asked get find
verdict-IsHonest_example = verdict-IsHonest door request db answer refl
