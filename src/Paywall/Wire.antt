-- ===== src/Paywall/Wire.antt =====
-- The answers of asp/paywall.py as they are sent: `_402`, `_json`, `_rpc_id`, and what the middleware
-- passes to them.
use merita.Prelude.{
  ℕ, String, false, Option, none, some, List, [], ◌∷◌, length, encode, concat, is_some,
  if◌then◌else◌, ◌==◌,
}
use merita.Prelude.Int.{pos}
use merita.Json.{Json, null, bool, int, str, arr, obj, nil, cons, Fields, end, field, get}
use merita.Runtime.{Runtime}
use merita.Facilitator.{Service}
use merita.Paywall.{Action, forward, challenge, not_configured, crash, free_reject}

-- an answer: its status, its headers, and the object whose JSON is its body
pub record Answer : Type 0 where
  pub status : ℕ
  pub headers : List (String × String)
  pub content : Fields

-- `json.loads(body).get("id")`, null where either raises
unfoldable pub rpc_id : Option Json → Json
unfolding get
rpc_id (some (obj rpc)) = get "id" rpc
rpc_id _ = null

abbrev or_default : Option String → String → String
or_default none s = s
or_default (some t) s = if t == "" then s else t

-- `"accepts": [reqs]`, where there are terms
abbrev with_accepts : Option Fields → Fields
with_accepts none = end
with_accepts (some reqs) = field "accepts" (arr (cons (obj reqs) nil)) end

module _ (rt : Runtime) where
  -- `str(len(payload))`
  abbrev pub length_of : Fields → String
  length_of d = rt.str_of (int (pos (length (encode (rt.dumps (obj d))))))

  unfoldable pub answer_402 : String → Option Fields → Option String → Answer
  answer_402 quote reqs error =
      let d : Fields = field "x402Version" (int (pos 2)) (
        field "error" (str (or_default error "payment required")) (
          field "payment_attempted" (bool (is_some error))
            (field "accepts_b64" (str quote) (with_accepts reqs)))) in
      record {
        status = 402;
        headers =
            ("content-type", "application/json")
            ∷ ("payment-required", quote)
            ∷ ("www-authenticate", "Payment realm=\"merita\", x402Version=2")
            ∷ ("content-length", length_of d)
            ∷ [];
        content = d;
      }

  unfoldable pub answer_json : ℕ → Fields → Answer
  answer_json status d = record {
    status = status;
    headers = ("content-type", "application/json") ∷ ("content-length", length_of d) ∷ [];
    content = d;
  }

  -- the JSON-RPC answer of a call that is rejected at no charge
  unfoldable pub rejection : Option Json → String → Fields
  unfolding rpc_id
  rejection body reason =
      let text = rt.dumps (
        obj (
          field "error" (str reason) (
            field "charged" (bool false)
              (field "hint" (str "no payment was taken — resolve the above and retry") end)))) in
      field "jsonrpc" (str "2.0") (
        field "id" (rpc_id body) (
          field "result"
            (obj (
              field "content"
                (arr (cons (obj (field "type" (str "text") (field "text" (str text) end))) nil))
                end))
            end))

  abbrev pub reason_of : Option String → Option String
  reason_of none = none
  reason_of (some reason) = some (concat ("payment not settled: " ∷ reason ∷ []))

  -- What the middleware sends itself; `none` where the application answers, or it raises.
  unfoldable pub sent : Service → Option Json → Action → Option Answer
  unfolding answer_402 answer_json rejection
  sent fac body (challenge reqs error) =
      some (answer_402 (fac.challenge_header reqs) (some reqs) (reason_of error))
  sent fac body not_configured =
      some (answer_json 503 (field "error" (str "payment not configured") end))
  sent fac body (free_reject reason) = some (answer_json 200 (rejection body reason))
  sent fac body (forward path pay) = none
  sent fac body crash = none
