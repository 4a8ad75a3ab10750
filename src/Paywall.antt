-- ===== src/Paywall.antt =====
-- asp/paywall.py: the x402 gate in front of the MCP server. `decide` is `X402Paywall.__call__` up to
-- the call of the application or the answer that it sends.
mod Scopes
pub mod Stream
pub mod Gate
pub mod Challenges
pub mod Wire
pub mod Quotes
pub use Scopes.{Scope}
unfoldable pub use Scopes.{
  payment_header, is_mcp_path, is_http_door, looks_like_x402_probe, accepts_sse, is_payment_name,
  is_probe_payment_name, is_x402_name, is_named, first_value, signals_x402,
}
use merita.Prelude.{
  String, Bool, true, false, not, ◌&&◌, ◌||◌, Option, none, some, List, [], ◌∷◌, if◌then◌else◌,
  ◌==◌, is_none, is_some,
}
use merita.Prelude.Float.{Float}
use merita.Prelude.Attempt.{Attempt, returned, raised, ◌>>=◌}
use merita.Json.{
  Json, null, bool, int, float, str, arr, obj, Fields, end, get, lookup, truthy, or_else,
}
use merita.Facilitator.{Settlement, Service, as_object}

-- the value of `PAID_TOOLS` under a name
pub record Tariff : Type 0 where
  pub price : Float
  pub description : String

-- `scope["merita_payment"]`
pub record Payment : Type 0 where
  pub reqs : Fields
  pub x_payment : String
  pub receipt : Option Fields

-- What the middleware does with a request: call the application with the body replayed, at a path and
-- with the payment that it stored; answer 402 with the terms and perhaps an error; answer 503; answer
-- 200 with a rejection that cost nothing; or raise.
pub data Action : Type 0 where
  forward : String → Option Payment → Action
  challenge : Fields → Option String → Action
  not_configured crash : Action
  free_reject : String → Action

-- `_tool_name`: null where the body is no call of a tool
unfoldable pub tool_name : Option Json → Attempt Json
unfolding get truthy
tool_name (some (obj rpc)) = elim (get "method" rpc) [
  | str m ↦
      if m == "tools/call"
      then (do
        params ← as_object (or_else (get "params" rpc) (obj end))
        returned (get "name" params))
      else returned null
  | _ ↦ returned null
]
tool_name _ = returned null

-- `_tool_args`: every exception gives the empty dictionary
unfoldable pub tool_args : Option Json → Json
unfolding get truthy
tool_args (some (obj rpc)) = elim (as_object (or_else (get "params" rpc) (obj end))) [
  | returned params ↦ or_else (get "arguments" params) (obj end)
  | raised ↦ obj end
]
tool_args _ = obj end

-- `_is_mcp_rpc`
unfoldable pub is_mcp_rpc : Option Json → Bool
unfolding get lookup
is_mcp_rpc (some (obj j)) = elim (get "jsonrpc" j) [
  | str v ↦ v == "2.0" && is_some (lookup "method" j)
  | _ ↦ false
]
is_mcp_rpc _ = false

abbrev is_null : Json → Bool
is_null null = true
is_null _ = false

unfoldable pub find : String → List (String × Tariff) → Option Tariff
find t [] = none
find t ((name, tariff) ∷ rest) = if name == t then some tariff else find t rest

-- `tool not in self.paid`, which raises at a list or a dictionary
unfoldable pub paid_tariff : List (String × Tariff) → Json → Attempt (Option (String × Tariff))
unfolding find
paid_tariff paid (str t) = elim (find t paid) [
  | none ↦ returned none
  | some tariff ↦ returned (some (t, tariff))
]
paid_tariff paid (arr xs) = raised
paid_tariff paid (obj d) = raised
paid_tariff paid _ = returned none

-- `self.paid.get("verify_deliverable", next(iter(self.paid.values())))`: the default is evaluated
-- first, and raises if nothing is paid
unfoldable pub canonical : List (String × Tariff) → Option Tariff
unfolding find
canonical [] = none
canonical ((name, tariff) ∷ rest) = elim (find "verify_deliverable" ((name, tariff) ∷ rest)) [
  | none ↦ some tariff
  | some t ↦ some t
]

abbrev pub terms : Service → Tariff → Fields
terms fac t = fac.requirements t.description t.price

module _ (fac : Service) (paid : List (String × Tariff)) where
  -- the 402 that answers a probe, or a plain buyer with no payment
  unfoldable pub canonical_challenge : Action
  unfolding canonical
  canonical_challenge = elim (canonical paid) [
    | none ↦ crash
    | some t ↦ challenge (terms fac t) none
  ]

  -- the last part: settle first, then the application
  unfoldable pub honour : Scope → Tariff → Action
  honour scope t = elim (payment_header scope) [
    | none ↦ challenge (terms fac t) none
    | some x ↦ elim (fac.settle_or_accept x (terms fac t)) [
      | raised ↦ crash
      | returned s ↦
          if s.ok
          then forward scope.path
              (some (record { reqs = terms fac t; x_payment = x; receipt = s.receipt }))
          else challenge (terms fac t) (some s.reason)
    ]
  ]

  module _ (precheck : Option (String → Json → Attempt (Bool × String))) where
    -- the hook that refuses to charge for a call that cannot succeed; if it raises, the call goes on
    unfoldable pub prechecked : String → Json → Option String
    prechecked tool args = elim precheck [
      | none ↦ none
      | some check ↦ elim (check tool args) [
        | raised ↦ none
        | returned (ok, reason) ↦ if ok then none else some reason
      ]
    ]

    -- a call of a paid tool
    unfoldable pub charge : Scope → Option Json → String → Tariff → Action
    charge scope body tool t =
        if not fac.configured then not_configured else elim (prechecked tool (tool_args body)) [
          | some reason ↦ free_reject reason
          | none ↦ honour scope t
        ]

    -- an MCP client, or a POST to another path
    unfoldable pub dispatch : Scope → Option Json → Attempt Json → Action
    unfolding paid_tariff
    dispatch scope body raised = crash
    dispatch scope body (returned tool) =
        if is_mcp_path scope && (is_null tool && not (is_mcp_rpc body))
        then canonical_challenge
        else elim (paid_tariff paid tool) [
          | raised ↦ crash
          | returned none ↦ forward scope.path none
          | returned (some (name, t)) ↦ charge scope body name t
        ]

    -- `body` is the decoded body, `none` where it is no JSON
    unfoldable pub decide : Scope → Option Json → Action
    decide scope body =
        if not (scope.kind == "http")
        then forward scope.path none
        else if is_http_door scope
        then forward scope.path none
        else if looks_like_x402_probe scope
        then canonical_challenge
        else if not (scope.method == "POST")
        then forward scope.path none
        else if is_mcp_path scope && not (accepts_sse scope)
        then (if is_some (payment_header scope)
            then forward "/x402/verify" none
            else canonical_challenge)
        else dispatch scope body (tool_name body)
