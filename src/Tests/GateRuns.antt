-- ===== src/Tests/GateRuns.antt =====
-- Runs of the gate and of the facilitator's answers.
use merita.Prelude.{
  String, Bool, true, false, ◌≡◌, ◌⊎◌, refl, Option, none, some, List, [], ◌∷◌, ◌++◌,
}
use merita.Prelude.Float.{zero_point}
use merita.Prelude.Attempt.{Attempt, returned}
use merita.Json.{Json, bool, str, obj, Fields, end, field}
use merita.Facilitator.{Reply, body}
use merita.Paywall.{
  signals_x402, Scope, Tariff, Payment, decide, find, canonical_challenge, payment_header,
  is_mcp_path, is_http_door, tool_name, terms, first_value, is_probe_payment_name, is_payment_name,
  looks_like_x402_probe, accepts_sse, charge, dispatch, honour, prechecked,
}
use merita.Paywall.Gate.{IsPaid, IsSentOn, IsPaidCall, paid_tool-IsPaid}
use merita.Paywall.Challenges.{unlisted_payment_is_challenged}
use merita.Paywall.Stream.{drain, replay, flat, parts, request, disconnect, replay-parts}
use merita.Tests.Fixtures.{fac}

abbrev tariff : Tariff
tariff = record { price = zero_point; description = "verify" }

abbrev paid : List (String × Tariff)
paid = ("verify_deliverable", tariff) ∷ []

-- an MCP client that pays
abbrev paying : Scope
paying = record {
  kind = "http";
  method = "POST";
  path = "/mcp";
  headers = ("x-payment", "paid") ∷ ("accept", "text/event-stream") ∷ [];
}

abbrev rpc : Option Json
rpc = some (
    obj (
      field "jsonrpc" (str "2.0") (
        field "method" (str "tools/call")
          (field "params" (obj (field "name" (str "verify_deliverable") end)) end))))

abbrev payment : Payment
payment = record { reqs = terms fac tariff; x_payment = "paid"; receipt = some end }

paid_tool-IsPaid_example :
    IsSentOn fac paid paying "/mcp"
    ⊎ ((p : Payment) × (some payment ≡ some p)
        × (paying.path ≡ paying.path)
        × IsPaid fac paid paying tariff p)
unfolding is_http_door tool_name find decide looks_like_x402_probe is_mcp_path first_value
    is_probe_payment_name accepts_sse dispatch charge prechecked honour payment_header
    is_payment_name
paid_tool-IsPaid_example =
    paid_tool-IsPaid fac paid none paying rpc "verify_deliverable" tariff "/mcp" (some payment) refl
      refl refl refl refl refl

paying-IsPaidCall :
    (check : Option (String → Json → Attempt (Bool × String)))
    → IsPaidCall fac paid check paying rpc "verify_deliverable" tariff
unfolding is_http_door looks_like_x402_probe is_mcp_path first_value is_probe_payment_name
    accepts_sse tool_name find
paying-IsPaidCall check = record {
  kind = refl;
  post = refl;
  door = refl;
  probe = refl;
  plain = refl;
  named = refl;
  listed = refl;
  ready = refl;
}

-- a hook that finds no test for any task
abbrev no_test : String → Json → Attempt (Bool × String)
no_test tool args = returned (false, "no test is committed")

-- a replay with a payment under the unlisted name, behind another header
abbrev odd_replay : Scope
odd_replay = record {
  kind = "http";
  method = "POST";
  path = "/mcp";
  headers =
      ("content-type", "application/json")
      ∷ ("Authorization-Payment", "paid")
      ∷ ("x-402", "1")
      ∷ [];
}

unlisted_payment_is_challenged_example :
    (payment_header odd_replay ≡ some "paid")
    × (decide fac paid none odd_replay rpc ≡ canonical_challenge fac paid)
unfolding is_mcp_path is_http_door first_value is_probe_payment_name signals_x402
unlisted_payment_is_challenged_example =
    unlisted_payment_is_challenged fac paid none odd_replay "paid" rpc refl refl refl refl refl refl

replay-parts_example :
    let (whole, later) = drain (parts ((1 ∷ []) ∷ (2 ∷ []) ∷ []) (3 ∷ []) ++ disconnect ∷ []) in
    replay whole later
    ≡ request (flat ((1 ∷ []) ∷ (2 ∷ []) ∷ []) ++ (3 ∷ [])) false ∷ disconnect ∷ []
replay-parts_example = replay-parts ((1 ∷ []) ∷ (2 ∷ []) ∷ []) (3 ∷ []) (disconnect ∷ [])

abbrev our_terms : Fields
our_terms = field "amount" (str "10000") (field "resource" (obj (field "url" (str "u") end)) end)

-- a facilitator that settles, and one that refuses because a payment is not settled
abbrev settles : String → Json → Reply
settles path j =
    body (obj (field "code" (str "0") (field "data" (obj (field "success" (bool true) end)) end)))

abbrev refusing_data : Fields
refusing_data = field "errorReason" (str "payment not settled") end

abbrev refusing : Fields
refusing = field "code" (str "7") (field "data" (obj refusing_data) end)

abbrev refuses : String → Json → Reply
refuses path j = body (obj refusing)
