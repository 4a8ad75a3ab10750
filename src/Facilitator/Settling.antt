-- ===== src/Facilitator/Settling.antt =====
-- When `settle_or_accept` of asp/okx_x402.py honours a payment.
use merita.Prelude.{String, true, false, ◌||◌, ◌≡◌, ◌⊎◌, some, arith}
use merita.Prelude.Attempt.{returned}
use merita.Json.{Json, obj, arr, bool, int, float, Fields, get, truthy, or_else, is_true, null, str}
use merita.Runtime.{Runtime}
use merita.Facilitator.{
  Reply, body, looks_already_settled, request_body, settle_path, conclude, settlement, read_reply,
  settle_or_accept, is_zero_code, as_object,
}

pub as_object-returned : (j : Json) {d : Fields} → as_object j ≡ returned d → j ≡ obj d
as_object-returned (obj d) h = cc
as_object-returned null h = cc
as_object-returned (bool b) h = cc
as_object-returned (int z) h = cc
as_object-returned (float x) h = cc
as_object-returned (str s) h = cc
as_object-returned (arr xs) h = cc

module _ (rt : Runtime) where
  -- The text from which a refusal is judged.
  abbrev pub refusal : Fields → String
  refusal d = rt.str_of (or_else (get "invalidReason" d) (or_else (get "errorReason" d) (obj d)))

  -- The facilitator's data says that money moved, or reads as if it had before.
  abbrev pub SaysSettled : Fields → Type 0
  SaysSettled d =
      ((is_true (get "success" d) || (is_true (get "settled" d) || truthy (get "transaction" d)))
        ≡ true)
      ⊎ (looks_already_settled (rt.dumps (obj d)) ≡ true)
      ⊎ (looks_already_settled (refusal d) ≡ true)

module _ (rt : Runtime) (facilitator : String → Json → Reply) where
  -- A facilitator that refuses a payment in words that contain a marker, "settled" among them, is
  -- read as if the buyer had paid: the payment is honoured whatever the refusal says.
  refusal_with_marker_honoured :
      (x_payment : String) (reqs payload top d : Fields)
      → rt.decode_b64 x_payment ≡ some (obj payload)
      → facilitator settle_path (request_body payload reqs) ≡ body (obj top)
      → is_zero_code (get "code" top) ≡ false
      → get "data" top ≡ obj d
      → truthy (obj d) ≡ true
      → looks_already_settled (refusal rt d) ≡ true
      → settle_or_accept rt facilitator x_payment reqs
        ≡ returned (settlement true "already settled" (some d))
  unfolding settle_or_accept read_reply conclude
  refusal_with_marker_honoured x reqs payload top d decoded answered code given nonempty reads =
      ground arith
