-- ===== src/Facilitator.antt =====
-- asp/okx_x402.py: the seller's side of x402. The facilitator itself is a function from a path and a
-- request body to its reply.
pub mod Settling
pub mod Environment
use merita.Prelude.{
  ℕ, String, Bool, true, false, not, ◌&&◌, ◌||◌, Option, none, some, List, [], ◌∷◌, if◌then◌else◌,
  concat, codes, lower, contains, any, ◌==◌, eqb,
}
use merita.Prelude.Int.{ℤ, pos, negsuc}
use merita.Prelude.Float.{Float}
use merita.Prelude.Attempt.{Attempt, returned, raised, ◌>>=◌}
use merita.Json.{
  Json, null, bool, int, str, arr, obj, Items, nil, cons, Fields, end, field, get, truthy, or_else,
  is_true, lookup, keep,
}
use merita.Runtime.{Runtime}

abbrev pub network : String
network = "eip155:196"

pub record Token : Type 0 where
  pub address : String
  pub symbol : String
  pub decimals : ℕ
  pub eip712_version : String

pub record Settlement : Type 0 where
  pub ok : Bool
  pub reason : String
  pub receipt : Option Fields

abbrev pub settlement : Bool → String → Option Fields → Settlement
settlement ok reason receipt = record { ok = ok; reason = reason; receipt = receipt }

-- `_ALREADY_SETTLED_MARKERS`
abbrev pub markers : List String
markers =
    "already settled" ∷ "already used" ∷ "nonce already" ∷ "authorization used" ∷ "duplicate"
    ∷ "already redeemed" ∷ "already processed" ∷ "settled" ∷ "authorizationused" ∷ "nonceused" ∷ []

-- lowering ASCII is enough here: no other letter lowers to one that stands in a marker
unfoldable pub looks_already_settled : String → Bool
looks_already_settled text = any (λ m. contains (codes m) (lower (codes text))) markers

-- `OkxAuth`: the credentials, and where buyers pay to
pub record Auth : Type 0 where
  pub key : String
  pub secret : String
  pub passphrase : String
  pub pay_to : String

unfoldable pub configured : Auth → Bool
configured a =
    not (a.key == "")
    && (not (a.secret == "") && (not (a.passphrase == "") && not (a.pay_to == "")))

-- What the HTTP call gave: it raised, or the decoded body.
pub data Reply : Type 0 where
  unreachable : Reply
  body : Json → Reply

-- a value over whose elements `.get` is called: only a list's can be objects
abbrev as_items : Json → Attempt Items
as_items (arr xs) = returned xs
as_items _ = raised

abbrev same_text : Json → String → Bool
same_text (str s) t = s == t
same_text _ t = false

-- one element of `kinds`; `.get` raises on what is no object
offers_exact : Json → Attempt Bool
offers_exact (obj k) =
    returned (same_text (get "network" k) network && same_text (get "scheme" k) "exact")
offers_exact other = raised

-- `any(… for k in kinds)` stops at the first that is true
unfoldable pub any_exact : Items → Attempt Bool
unfolding offers_exact
any_exact nil = returned false
any_exact (cons k ks) =
    let rest = any_exact ks in do found ← offers_exact k; if found then returned true else rest

-- `str(code) == "0"`: the text of these two values only
abbrev pub is_zero_code : Json → Bool
is_zero_code (str s) = s == "0"
is_zero_code (int (pos n)) = eqb n 0
is_zero_code _ = false

-- the comprehensions of `_call` over a dictionary
unfoldable pub is_proof_key : String → Bool
is_proof_key k = k == "signature" || k == "authorization"

unfoldable pub is_term_key : String → Bool
is_term_key k = not (k == "resource")

-- the terms: what the seller advertises, and what it forwards
unfoldable pub envelope : Fields → Fields → Fields
unfolding get
envelope payload reqs = field "x402Version" (int (pos 2)) (
    field "resource" (or_else (get "resource" payload) (get "resource" reqs)) (
      field "accepted" (or_else (get "accepted" payload) (obj (keep is_term_key reqs)))
        (field "payload" (or_else (get "payload" payload) (obj (keep is_proof_key payload))) end)))

abbrev pub request_body : Fields → Fields → Json
request_body payload reqs = obj (
    field "x402Version" (int (pos 2)) (
      field "paymentPayload" (obj (envelope payload reqs))
        (field "paymentRequirements" (obj reqs) end)))

abbrev pub settle_path : String
settle_path = "/api/v6/pay/x402/settle"

abbrev pub verify_path : String
verify_path = "/api/v6/pay/x402/verify"

-- a value on which `.get` is called
abbrev pub as_object : Json → Attempt Fields
as_object (obj d) = returned d
as_object _ = raised

-- what `_call` makes of the reply; only on a yes is the data read here
unfoldable pub read_reply : Reply → Attempt (Bool × Json)
read_reply unreachable = returned (false, obj end)
read_reply (body j) = do
  top ← as_object j
  let data_of = or_else (get "data" top) (obj end)
  if is_zero_code (get "code" top)
      then (do inner ← as_object data_of; returned (true, obj inner))
      else returned (false, data_of)

module _ (rt : Runtime) where
  -- what `settle_or_accept` makes of the facilitator's answer
  unfoldable pub conclude : Bool → Fields → Settlement
  unfolding looks_already_settled get truthy
  conclude false d =
      let reason =
        rt.str_of (or_else (get "invalidReason" d) (or_else (get "errorReason" d) (obj d))) in
      if looks_already_settled reason || looks_already_settled (rt.dumps (obj d))
      then settlement true "already settled" (some d)
      else settlement false reason none
  conclude true d =
      if is_true (get "success" d) || (is_true (get "settled" d) || truthy (get "transaction" d))
      then settlement true "settled" (some d)
      else if looks_already_settled (rt.dumps (obj d))
      then settlement true "already settled" (some d)
      else settlement false (concat ("settle inconclusive: " ∷ rt.str_of (obj d) ∷ [])) none

  abbrev pub accept : Bool × Json → Attempt Settlement
  accept (ok, answer) = do d ← as_object answer; returned (conclude ok d)

module _ (rt : Runtime) (facilitator : String → Json → Reply) where
  -- `check_supported`, whose every exception is caught; the second part is `self.supported`
  unfoldable pub check_supported : Bool → Bool × Bool
  unfolding any_exact
  check_supported before =
      let reply = facilitator "/api/v6/pay/x402/supported" null in
      let kinds : Attempt Json = elim reply [
        | unreachable ↦ raised
        | body j ↦ (do
          top ← as_object j
          inner ← as_object (or_else (get "data" top) (obj end))
          returned (or_else (get "kinds" inner) (arr nil)))
      ] in
      let found : Attempt Bool = (do ks ← kinds; xs ← as_items ks; any_exact xs) in
      elim found [ raised ↦ (false, before) | returned ok ↦ (ok, ok) ]

  -- `_call`: whether the facilitator said yes, and its data
  unfoldable pub call : String → Fields → Fields → Attempt (Bool × Json)
  unfolding envelope
  call path payload reqs = read_reply (facilitator path (request_body payload reqs))

  unfoldable pub settle_or_accept : String → Fields → Attempt Settlement
  unfolding call conclude
  settle_or_accept x_payment reqs = elim (rt.decode_b64 x_payment) [
    | none ↦ returned (settlement false "malformed X-PAYMENT header" none)
    | some j ↦ (do payload ← as_object j; call settle_path payload reqs >>= accept rt)
  ]

  abbrev verify_answer : Fields → Bool × Option Json
  verify_answer d =
      if is_true (get "isValid" d) || is_true (get "success" d) then (true, none) else (
        false,
        some (or_else (get "invalidReason" d) (or_else (get "errorReason" d) (str "unknown"))),
      )

  -- `verify`: does the signature check out
  unfoldable pub verify : String → Fields → Attempt (Bool × Option Json)
  unfolding call get
  verify x_payment reqs = elim (rt.decode_b64 x_payment) [
    | none ↦ returned (false, some (str "malformed X-PAYMENT header"))
    | some j ↦ (do
      payload ← as_object j
      (ok, answer) ← call verify_path payload reqs
      if ok
          then (do d ← as_object answer; returned (verify_answer d))
          else returned (false, some (str "facilitator unreachable")))
  ]

  -- `settle`, which the MCP tools no longer call
  unfoldable pub settle : String → Fields → Attempt (Option Fields)
  unfolding call get truthy
  settle x_payment reqs = elim (rt.decode_b64 x_payment) [
    | none ↦ raised
    | some j ↦ (do
      payload ← as_object j
      (ok, answer) ← call settle_path payload reqs
      if ok
          then (do
            d ← as_object answer
            returned (if truthy (get "success" d) then some d else none))
          else returned none)
  ]

module _ (rt : Runtime) (token : Token) (auth : Auth) where
  -- the 402's terms; `price` is in human units
  unfoldable pub requirements : String → String → Float → Fields
  requirements resource_url description price = field "scheme" (str "exact") (
      field "network" (str network) (
        field "amount" (str (rt.str_of (int (rt.round_product price token.decimals)))) (
          field "asset" (str token.address) (
            field "payTo" (str auth.pay_to) (
              field "maxTimeoutSeconds" (int (pos 600)) (
                field "extra"
                  (obj (
                    field "name" (str token.symbol)
                      (field "version" (str token.eip712_version) end)))
                  (field "resource"
                    (obj (
                      field "url" (str resource_url) (
                        field "description" (str description)
                          (field "mimeType" (str "application/json") end))))
                    end)))))))

unfoldable pub challenge_header : Runtime → Fields → String
challenge_header rt reqs =
    rt.encode_b64
      (obj (field "x402Version" (int (pos 2)) (field "accepts" (arr (cons (obj reqs) nil)) end)))

-- What the doors use of the facilitator's object.
pub record Service : Type 0 where
  pub configured : Bool
  -- the terms, by description and price
  pub requirements : String → Float → Fields
  pub challenge_header : Fields → String
  pub settle_or_accept : String → Fields → Attempt Settlement
  pub receipt_header : Fields → String

abbrev pub service : Runtime → (String → Json → Reply) → Token → Auth → String → Service
service rt facilitator token auth resource_url = record {
  configured = configured auth;
  requirements = requirements rt token auth resource_url;
  challenge_header = challenge_header rt;
  settle_or_accept = settle_or_accept rt facilitator;
  receipt_header = λ d. rt.encode_b64 (obj d);
}
