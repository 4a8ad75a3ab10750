-- ===== src/Tests/QuoteRuns.antt =====
-- A call that is quoted a price, and its paid replay.
use merita.Prelude.{String, Bool, true, false, Option, some, List, [], ◌∷◌, ◌==◌, if◌then◌else◌}
use merita.Prelude.Int.{pos}
use merita.Prelude.Float.{zero_point}
use merita.Json.{Json, bool, int, str, obj, Fields, end, field}
use merita.Runtime.{Runtime}
use merita.Facilitator.{Service, Reply, body, Token, Auth, requirements}
use merita.Paywall.{Scope, Tariff, Payment}
use merita.Paywall.Quotes.{fac, offer}
use merita.Tests.Fixtures.{rt, signed}

abbrev tariff : Tariff
tariff = record { price = zero_point; description = "verify" }

abbrev paid : List (String × Tariff)
paid = ("verify_deliverable", tariff) ∷ []

abbrev token : Token
token = record { address = "0x1E"; symbol = "USDT"; decimals = 6; eip712_version = "1" }

abbrev auth : Auth
auth = record { key = "k"; secret = "s"; passphrase = "p"; pay_to = "0xme" }

abbrev quote : Fields
quote = requirements rt token auth "https://merita/mcp" "verify" zero_point

-- base64 that knows a payment and the quote
abbrev reader : Runtime
reader = record rt {
  decode_b64 = λ t. if t == "paid" then some (obj signed) else some (offer quote);
}

abbrev receipt : Fields
receipt = field "success" (bool true) end

-- a facilitator that settles whatever it is asked to
abbrev settles : String → Json → Reply
settles path b = body (obj (field "code" (int (pos 0)) (field "data" (obj receipt) end)))

abbrev calling : List (String × String) → Scope
calling headers = record {
  kind = "http";
  method = "POST";
  path = "/mcp";
  headers = ("accept", "text/event-stream") ∷ headers;
}

abbrev headers : Bool → List (String × String)
headers true = ("x-payment", "paid") ∷ []
headers false = []

abbrev seller : Service
seller = fac reader settles token auth "https://merita/mcp"

abbrev rpc : Option Json
rpc = some (
    obj (
      field "jsonrpc" (str "2.0") (
        field "method" (str "tools/call")
          (field "params" (obj (field "name" (str "verify_deliverable") end)) end))))

abbrev payment : Payment
payment = record { reqs = quote; x_payment = "paid"; receipt = some receipt }
