-- ===== src/Tests/Fixtures.antt =====
-- The standard library, the facilitator and the objects of the doors, as small concrete functions.
use merita.Prelude.{ℕ, String, true, false, none, some, List, eqb, length, if◌then◌else◌, ◌==◌}
use merita.Prelude.Int.{pos}
use merita.Prelude.Float.{nan, one_point}
use merita.Prelude.Attempt.{returned}
use merita.Json.{Json, str, float, obj, Fields, end, field}
use merita.Runtime.{Runtime}
use merita.Facilitator.{Service, settlement}

abbrev pub digest : List ℕ → String
digest bytes = if eqb (length bytes) 5 then "a5" else "b0"

abbrev pub signed : Fields
signed = field "signature" (str "s") end

-- an adjudicator's answer that holds no number
abbrev pub paid_answer : Json
paid_answer =
    obj (field "score" (float nan) (field "confidence" (float nan) (field "reason" (str "x") end)))

abbrev pub rt : Runtime
rt = record {
  sha256 = digest;
  str_of = λ j. elim j as (λ j. String) [ str s ↦ s | _ ↦ "value" ];
  dumps = λ j. "{}";
  loads = λ codes. some paid_answer;
  float_of_text = λ t. none;
  float_of_int = λ z. some one_point;
  format_2f = λ x. "0.00";
  decode_b64 = λ t. if t == "paid" then some (obj signed) else none;
  encode_b64 = λ j. "e30=";
  round_product = λ x n. pos 10000;
}

abbrev pub fac : Service
fac = record {
  configured = true;
  requirements = λ description price. field "amount" (str "10000") end;
  challenge_header = λ d. "e30=";
  settle_or_accept = λ x d.
      if x == "paid"
      then returned (settlement true "settled" (some end))
      else returned (settlement false "refused" none);
  receipt_header = λ d. "e30=";
}
